-- ===== src/Tests/Devices.antt =====
-- Runs on a disk that is formatted step by step, and on a host where no disk appears.
use upcloud_csi.Base.{
  ℕ, ◌+◌, ◌≡◌, refl, sym, ap, subst, arith, pos, inl, inr, none, some, List, [], ◌∷◌, String,
  str_eq, if◌then◌else◌,
}
use upcloud_csi.Go.{ok, exit_status}
use upcloud_csi.Go.Text.{trim_space, to_lower, split}
use upcloud_csi.Filesystem.System.{System, Output, run_command}
use upcloud_csi.Filesystem.Disks.{cmd_exit_code, sfdisk_output_get_last_partition, poll_link}
use upcloud_csi.Filesystem.Probes.{
  is_supported_filesystem, format_volume, get_device_last_partition,
}
use upcloud_csi.Filesystem.Tools.{Tools, IsProbed}
use upcloud_csi.Filesystem.Idempotent.{format_volume_idempotent}
use upcloud_csi.Filesystem.Success.{Answers, Working, format_volume_succeeds}
use upcloud_csi.Filesystem.Wait.{Clock, poll_link_ends}
use upcloud_csi.Tests.Fixtures.{host}

-- What is on the disk.
pub data Stage : Type 0 where
  blank labelled partitioned formatted : Stage

abbrev said : String → Output
said text = record { text = text; failure = none }

abbrev failed : Output
failed = record { text = ""; failure = some (exit_status (pos 2)) }

-- The tag that blkid is asked for.
abbrev tag_of : List String → String
tag_of (a ∷ b ∷ c ∷ d ∷ tag ∷ rest) = tag
tag_of _ = ""

abbrev table_answer : Stage → Output
table_answer blank = failed
table_answer _ = said "gpt"

abbrev type_answer : Stage → Output
type_answer formatted = said "ext4"
type_answer _ = failed

abbrev listing : Stage → Output
listing partitioned = said "Device\n/dev/vda1 \n"
listing formatted = said "Device\n/dev/vda1 \n"
listing _ = said ""

-- mkfs wants a partition.
abbrev make_filesystem : Stage → Output × Stage
make_filesystem partitioned = (said "", formatted)
make_filesystem formatted = (said "", formatted)
make_filesystem s = (failed, s)

abbrev parted : List String → Output × Stage
parted (a ∷ b ∷ rest) = (said "", if str_eq b "mklabel" then labelled else partitioned)
parted args = (failed, blank)

abbrev run : String → List String → Stage → Output × Stage
run cmd args s =
    if str_eq cmd "blkid"
    then (if str_eq (tag_of args) "PTTYPE" then table_answer s else type_answer s, s)
    else if str_eq cmd "sfdisk"
    then (listing s, s)
    else if str_eq cmd "parted"
    then parted args
    else if str_eq cmd "mkfs.ext4"
    then make_filesystem s
    else (said "", s)

-- A host with such commands.
abbrev pub tooled : System Stage
tooled = host run (λ _. 0) (λ _ s. s)

one_partition :
    (s : Stage) (q : String)
    → sfdisk_output_get_last_partition "/dev/vda" (listing s).text ≡ ok q
    → q ≡ "/dev/vda1"
unfolding sfdisk_output_get_last_partition trim_space split
one_partition blank q e = absurd (cc e)
one_partition labelled q e = absurd (cc e)
one_partition partitioned q e = ground (arith, e)
one_partition formatted q e = ground (arith, e)

made :
    (s s' : Stage) (text : String)
    → run_command tooled "mkfs.ext4" ("/dev/vda1" ∷ []) s ≡ (ok text, s')
    → IsProbed tooled "TYPE" "ext4" "/dev/vda1" s'
unfolding trim_space to_lower
made blank s' text e = absurd (cc e)
made labelled s' text e = absurd (cc e)
made partitioned s' text e =
    subst (IsProbed tooled "TYPE" "ext4" "/dev/vda1") (ap (λ z. z.1) e) (refl, refl)
made formatted s' text e =
    subst (IsProbed tooled "TYPE" "ext4" "/dev/vda1") (ap (λ z. z.1) e) (refl, refl)

keeps :
    (s s' : Stage) (text : String)
    → run_command tooled "mkfs.ext4" ("/dev/vda1" ∷ []) s ≡ (ok text, s')
    → IsProbed tooled "PTTYPE" "gpt" "/dev/vda" s'
unfolding trim_space to_lower
keeps blank s' text e = absurd (cc e)
keeps labelled s' text e = absurd (cc e)
keeps partitioned s' text e =
    subst (IsProbed tooled "PTTYPE" "gpt" "/dev/vda") (ap (λ z. z.1) e) (refl, refl)
keeps formatted s' text e =
    subst (IsProbed tooled "PTTYPE" "gpt" "/dev/vda") (ap (λ z. z.1) e) (refl, refl)

lists :
    (s s' : Stage) (text : String)
    → run_command tooled "mkfs.ext4" ("/dev/vda1" ∷ []) s ≡ (ok text, s')
    → listing s' ≡ listing s
lists blank s' text e = absurd (cc e)
lists labelled s' text e = absurd (cc e)
lists partitioned s' text e = sym (ap listing (ap (λ z. z.1) e))
lists formatted s' text e = sym (ap listing (ap (λ z. z.1) e))

tooled-Tools : Tools tooled "/dev/vda" "/dev/vda1" "ext4" []
unfolding trim_space to_lower
tooled-Tools = record {
  table_reads = λ s. refl;
  type_reads = λ s. refl;
  list_reads = λ s. refl;
  one_partition = one_partition;
  mklabel_makes = λ s s' text e.
      subst (IsProbed tooled "PTTYPE" "gpt" "/dev/vda") (ap (λ z. z.1) e) (refl, refl);
  mkpart_keeps = λ s s' text e h.
      subst (IsProbed tooled "PTTYPE" "gpt" "/dev/vda") (ap (λ z. z.1) e) (refl, refl);
  mkfs_makes = made;
  mkfs_keeps = λ s s' text e h. keeps s s' text e;
  mkfs_lists = lists;
}

format_volume_idempotent_example :
    format_volume tooled ("ext4" ∷ "xfs" ∷ []) "/dev/vda" "EXT4" [] formatted ≡ (ok tt, formatted)
unfolding format_volume trim_space to_lower split
format_volume_idempotent_example =
    format_volume_idempotent tooled ("ext4" ∷ "xfs" ∷ []) "/dev/vda" "EXT4" "/dev/vda1" [] blank
      formatted tooled-Tools refl

table_answered : (s : Stage) → Answers (table_answer s)
unfolding cmd_exit_code
table_answered blank = inr (exit_status (pos 2), refl, refl)
table_answered labelled = inl refl
table_answered partitioned = inl refl
table_answered formatted = inl refl

type_answered : (s : Stage) → Answers (type_answer s)
unfolding cmd_exit_code
type_answered blank = inr (exit_status (pos 2), refl, refl)
type_answered labelled = inr (exit_status (pos 2), refl, refl)
type_answered partitioned = inr (exit_status (pos 2), refl, refl)
type_answered formatted = inl refl

mkfs_worked :
    (s : Stage)
    → get_device_last_partition tooled "/dev/vda" s ≡ (ok "/dev/vda1", s)
    → (make_filesystem s).0.failure ≡ none
unfolding get_device_last_partition sfdisk_output_get_last_partition trim_space split
mkfs_worked blank e = absurd (cc e)
mkfs_worked labelled e = absurd (cc e)
mkfs_worked partitioned e = refl
mkfs_worked formatted e = refl

tooled-Working : Working tooled "/dev/vda" "/dev/vda1" "ext4" [] tooled-Tools
unfolding sfdisk_output_get_last_partition trim_space split
tooled-Working = record {
  table_answers = table_answered;
  type_answers = type_answered;
  mklabel_works = λ s. refl;
  mkpart_works = λ s table. refl;
  mkpart_lists = λ s fine. (refl, refl);
  mkfs_works = λ s there. mkfs_worked s there.1;
}

-- A disk with a table, on which an attempt has ended.
format_volume_succeeds_example :
    (t : Stage) × (format_volume tooled ("ext4" ∷ "xfs" ∷ []) "/dev/vda" "EXT4" [] labelled
      ≡ (ok tt, t))
unfolding is_supported_filesystem to_lower
format_volume_succeeds_example =
    format_volume_succeeds tooled ("ext4" ∷ "xfs" ∷ []) "/dev/vda" "EXT4" "/dev/vda1" []
      tooled-Tools tooled-Working refl refl refl refl labelled

-- A clock and no disk.
abbrev waiting : System ℕ
waiting = host (λ cmd args s. (said "", s)) (λ s. s) (λ d s. s + d)

waiting-Clock : Clock waiting
waiting-Clock = record { sleeps = λ d s. omega arith; goes_on = λ ln s. omega arith }

poll_link_ends_example :
    poll_link waiting 40 "/dev/disk/by-id/virtio-01" 5 5
    ≡ poll_link waiting 30 "/dev/disk/by-id/virtio-01" 5 5
poll_link_ends_example =
    poll_link_ends waiting waiting-Clock 10 "/dev/disk/by-id/virtio-01" 5 5 (omega arith)
