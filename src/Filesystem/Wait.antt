-- ===== src/Filesystem/Wait.antt =====
-- The loop that waits for a disk to appear (internal/filesystem/linux_utils.go).
use upcloud_csi.Base.{
  ℕ, zero, suc, ◌+◌, ◌-◌, ◌*◌, ◌≤◌, ◌≡◌, refl, sym, subst, ◌∙◌, arith, ltb, str_eq, if◌then◌else◌,
  false, Bool-cases, inl, inr, String,
}
use upcloud_csi.Go.{Action, Result, ok, err, panic, is_not_exist, lift, catch, raise, pure, ◌>>=◌}
use upcloud_csi.Filesystem.System.{System}
use upcloud_csi.Filesystem.Disks.{
  second, udev_disk_timeout, read_link, after_read, poll_link, poll_rounds,
}

-- A monotonic clock: a sleep lasts at least as long as it was asked to, and reading a link does
-- not turn the clock back.
pub record Clock {S : Type 0} (y : System S) : Type 0 where
  pub sleeps : (d : ℕ) (s : S) → y.now s + d ≤ y.now (y.sleep d s)
  pub goes_on : (ln : String) (s : S) → y.now s ≤ y.now (y.os.readlink ln s).1

module _ {S : Type 0} (y : System S) (clock : Clock y) where
  read_answer :
      (r : Result String) (t : S)
      → (catch (lift r) (λ e. if is_not_exist e then pure "" else raise e) t).1 ≡ t
  read_answer (ok dev) t = refl
  read_answer panic t = refl
  read_answer (err c) t = elim (Bool-cases (is_not_exist c)) [
    | inl gone ↦ rw gone
    | inr other ↦ rw other
  ]

  read_link-now : (ln : String) (s : S) → y.now s ≤ y.now (read_link y ln s).1
  read_link-now ln s =
      let same = read_answer (y.os.readlink ln s).0 (y.os.readlink ln s).1 in
      subst (λ z. y.now s ≤ y.now z) (sym same) (clock.goes_on ln s)

  same_after :
      (f g : Action S String) (r : Result String) (t : S)
      → (f (y.sleep (2 * second) t) ≡ g (y.sleep (2 * second) t))
      → (lift r >>= after_read y f) t ≡ (lift r >>= after_read y g) t
  same_after f g (ok dev) t e = elim (Bool-cases (str_eq dev "")) [
    | inl none' ↦ ground (arith, none', e)
    | inr some' ↦ ground (arith, some')
  ]
  same_after f g (err c) t e = refl
  same_after f g panic t e = refl

  time_over :
      (n : ℕ) (ln : String) (start : ℕ) (s : S)
      → ltb (y.now s - start) (second * udev_disk_timeout) ≡ false
      → poll_link y n ln start s ≡ (ok "", s)
  unfolding poll_link
  time_over zero ln start s h = refl
  time_over (suc n) ln start s h = rw h

  poll_link-fuel :
      (n k : ℕ) (ln : String) (start : ℕ) (s : S)
      → start ≤ y.now s
      → second * udev_disk_timeout ≤ (y.now s - start) + n * (2 * second)
      → poll_link y (n + k) ln start s ≡ poll_link y n ln start s
  unfolding poll_link
  poll_link-fuel zero k ln start s h e =
      let over : ltb (y.now s - start) (second * udev_disk_timeout) ≡ false = ground arith in
      time_over (0 + k) ln start s over ∙ sym (time_over zero ln start s over)
  poll_link-fuel (suc n) k ln start s h e =
      elim (Bool-cases (ltb (y.now s - start) (second * udev_disk_timeout))) [
        | inr over ↦ time_over (suc n + k) ln start s over ∙ sym (time_over (suc n) ln start s over)
        | inl less ↦
            let t = (read_link y ln s).1 in
            let later = clock.sleeps (2 * second) t in
            let now = read_link-now ln s in
            let rest =
              same_after (poll_link y (n + k) ln start) (poll_link y n ln start)
                (read_link y ln s).0 t
                (poll_link-fuel n k ln start (y.sleep (2 * second) t) (omega arith)
                  (omega arith)) in
            let shape : suc (n + k) ≡ suc n + k = omega arith in
            subst (λ z. poll_link y z ln start s ≡ poll_link y (suc n) ln start s) shape
              (rw (less, rest))
      ]

  -- Thirty rounds are enough for the loop that waits for a disk: on a monotonic clock, from any
  -- moment that is not before its start, more rounds give the same answer and the same state. So the
  -- loop ends, by itself, within thirty rounds.
  pub poll_link_ends :
      (k : ℕ) (ln : String) (start : ℕ) (s : S)
      → start ≤ y.now s
      → poll_link y (poll_rounds y + k) ln start s ≡ poll_link y (poll_rounds y) ln start s
  poll_link_ends k ln start s h = poll_link-fuel 30 k ln start s h (omega arith)
