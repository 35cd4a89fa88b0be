-- ===== src/Controller/Rpc/Unique.antt =====
-- `CreateVolume` for file storage makes no second one of a name in the zone.
use upcloud_csi.Base.{
  ◌≡◌, ◌⊎◌, inl, inr, refl, sym, subst, ◌&&◌, List, [], ◌∷◌, str_eq, eq_iff, IsIn, arith,
  Bool-cases,
}
use upcloud_csi.Go.{ok, status, internal, lift, map_error}
use upcloud_csi.Go.Inversion.{bind-eq-ok, map_error-eq-ok}
use upcloud_csi.Api.{FileStorage}
use upcloud_csi.Csi.{CreateVolumeRequest, Volume}
use upcloud_csi.Controller.{Controller}
use upcloud_csi.Controller.Requests.{validate_file_storage_create_volume_request}
use upcloud_csi.Controller.File.{create_file_storage_exists_response, create_file_storage_volume}
use upcloud_csi.Controller.Rpc.{create_or_find_file, create_file_volume}

module _ {S : Type 0} (c : Controller S) (req : CreateVolumeRequest) where
  -- The file storage has the name that is asked for and lies in the zone.
  abbrev pub IsNamesake : FileStorage → Type 0
  IsNamesake fs = (fs.name ≡ req.name) × (fs.zone ≡ c.zone)

  -- A namesake of the list is the answer, or there is none and one was made.
  abbrev pub IsUnique : List FileStorage → S → S → Volume → Type 0
  IsUnique list s s' v =
      ((fs : FileStorage) × IsIn fs list
        × IsNamesake fs
        × (create_file_storage_exists_response req fs ≡ ok v)
        × (s ≡ s'))
      ⊎ (((fs : FileStorage) → IsIn fs list → ¬ IsNamesake fs)
          × (create_file_storage_volume c req s ≡ (ok v, s')))

  IsUnique-cons :
      (f : FileStorage) (list : List FileStorage) (s s' : S) (v : Volume)
      → ¬ IsNamesake f
      → IsUnique list s s' v
      → IsUnique (f ∷ list) s s' v
  IsUnique-cons f list s s' v other (inl (fs, inside, same, answer, last)) =
      inl (fs, inr inside, same, answer, last)
  IsUnique-cons f list s s' v other (inr (none', made)) = inr (
    λ fs inside same. elim inside [
      | inl is ↦ other (subst IsNamesake (sym is) same)
      | inr later ↦ none' fs later same
    ],
    made,
  )

  create_or_find_file-IsUnique :
      (list : List FileStorage) (s s' : S) (v : Volume)
      → create_or_find_file c req list s ≡ (ok v, s')
      → IsUnique list s s' v
  unfolding create_or_find_file
  create_or_find_file-IsUnique [] s s' v e = inr (λ fs inside. absurd inside, e)
  create_or_find_file-IsUnique (f ∷ list) s s' v e =
      elim (Bool-cases (str_eq f.name req.name && str_eq f.zone c.zone)) [
        | inl same ↦
            let e' = rw same at e in
            inl (
              f,
              inl refl,
              ground (arith, eq_iff f.name req.name, eq_iff f.zone c.zone),
              ground arith,
              ground arith,
            )
        | inr other ↦
            IsUnique-cons f list s s' v
              (ground (arith, other, eq_iff f.name req.name, eq_iff f.zone c.zone))
              (create_or_find_file-IsUnique list s s' v (rw other at e))
      ]

  -- `CreateVolume` for file storage, where it succeeds, has listed the file storages. It answers for
  -- one of the list that has the name and the zone, changing nothing after the listing, or no file
  -- storage of the list has them and it makes a new one.
  pub create_file_volume-IsUnique :
      (s s' : S) (v : Volume)
      → create_file_volume c req s ≡ (ok v, s')
      → (list : List FileStorage) × (t : S) × (c.svc.get_file_storages s ≡ (ok list, t))
        × IsUnique list t s' v
  unfolding create_file_volume
  create_file_volume-IsUnique s s' v e =
      let (_, t₀, passed, e₁) =
        bind-eq-ok (lift (validate_file_storage_create_volume_request c.library req c.zone)) _ s s'
          v e in
      let here : t₀ ≡ s = ground arith in
      let listing = c.svc.get_file_storages in
      let (list, t, listed, e₂) =
        bind-eq-ok (map_error (λ e. status internal) listing) (create_or_find_file c req) t₀ s' v
          e₁ in
      let listed' = map_error-eq-ok (λ e. status internal) listing t₀ t list listed in
      (
        list,
        t,
        subst (λ z. listing z ≡ (ok list, t)) here listed',
        create_or_find_file-IsUnique list t s' v e₂,
      )
