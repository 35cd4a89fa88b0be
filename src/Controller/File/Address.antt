-- ===== src/Controller/File/Address.antt =====
-- File storage volumes: the address that a response carries (internal/controller/controller_file_storage.go).
use upcloud_csi.Base.{
  ℤ, eqb_ℤ, quot, ◌≡◌, ◌≢◌, inl, inr, refl, sym, ap, subst, ◌∙◌, true, none, List, [], ◌∷◌, index,
  str_eq, eq_iff, All, IsIn, arith, Bool-cases, if◌then◌else◌,
}
use upcloud_csi.Go.{Action, ok, status, internal, out_of_range, pure, raise, lift, map_error, ◌>>◌}
use upcloud_csi.Go.Inversion.{bind-eq-ok, map_error-eq-ok}
use upcloud_csi.Api.{FileStorage, FileStorageNetwork}
use upcloud_csi.Csi.{CreateVolumeRequest, Volume}
use upcloud_csi.Service.{NetworkRef}
use upcloud_csi.Controller.{Controller, gi_b, bytes_of, nfs_server_key, topology_region_key}
use upcloud_csi.Controller.Capacity.{
  validate_capacity_range, min_file_storage_size, max_file_storage_size,
}
use upcloud_csi.Controller.Requests.{create_volume_request_encryption_at_rest}
use upcloud_csi.Controller.File.{
  first_address, file_storage_server_from_fs, file_volume_context, discover_cluster_network,
  create_file_storage_volume, create_file_storage_exists_response,
}

first_address-IsIn :
    (ns : List FileStorageNetwork)
    → first_address ns ≢ ""
    → (n : FileStorageNetwork) × IsIn n ns × (n.ip_address ≡ first_address ns)
unfolding first_address
first_address-IsIn [] filled = absurd (filled refl)
first_address-IsIn (n ∷ ns) filled = elim (Bool-cases (str_eq n.ip_address "")) [
  | inl empty ↦
      let (m, inside, same) = first_address-IsIn ns (rw empty at filled) in
      (m, inr inside, rw empty same)
  | inr here ↦ (n, inl refl, rw here refl)
]

filled_address :
    (fs : FileStorage)
    → file_storage_server_from_fs fs ≢ ""
    → (n : FileStorageNetwork) × IsIn n fs.networks
      × (n.ip_address ≡ file_storage_server_from_fs fs)
unfolding file_storage_server_from_fs
filled_address fs filled = first_address-IsIn fs.networks filled

first_address-none :
    (ns : List FileStorageNetwork) → All (λ n. n.ip_address ≡ "") ns → first_address ns ≡ ""
unfolding first_address
first_address-none [] none' = refl
first_address-none (n ∷ ns) (empty, none') =
    rw ((eq_iff n.ip_address "").1 empty) (first_address-none ns none')

-- The answer for a file storage that exists.
abbrev found_volume : FileStorage → Volume
found_volume fs = record {
  volume_id = fs.uuid;
  capacity_bytes = bytes_of fs.size_gib;
  accessible_topology = ((topology_region_key, fs.zone) ∷ []) ∷ [];
  content_source = none;
  volume_context = file_volume_context (file_storage_server_from_fs fs);
}

-- Where the size fits and no network of a file storage has an address, the answer for it is a volume
-- whose NFS server is the empty text.
create_file_storage_exists_response_unaddressed :
    (req : CreateVolumeRequest) (fs : FileStorage)
    → validate_capacity_range req.capacity_range min_file_storage_size max_file_storage_size
      ≡ ok (bytes_of fs.size_gib)
    → All (λ n. n.ip_address ≡ "") fs.networks
    → (v : Volume) × (create_file_storage_exists_response req fs ≡ ok v)
      × (v.volume_id ≡ fs.uuid)
      × (index v.volume_context nfs_server_key ≡ "")
unfolding create_file_storage_exists_response file_storage_server_from_fs
create_file_storage_exists_response_unaddressed req fs valid none' =
    let empty = first_address-none fs.networks none' in
    let sized : eqb_ℤ (bytes_of fs.size_gib) (bytes_of fs.size_gib) ≡ true = ground arith in
    (found_volume fs, rw (valid, sized) refl, refl, empty)

module _ {S : Type 0} (c : Controller S) where
  -- What follows the creation.
  abbrev finish : ℤ → NetworkRef → FileStorage → Action S Volume
  finish z net fs =
      (if str_eq (file_storage_server_from_fs fs) "" then raise (status internal) else pure tt)
      >> pure (record {
        volume_id = fs.uuid;
        capacity_bytes = z;
        accessible_topology = ((topology_region_key, net.zone) ∷ []) ∷ [];
        content_source = none;
        volume_context = file_volume_context (file_storage_server_from_fs fs);
      })

  finish-eq-ok :
      (z : ℤ) (net : NetworkRef) (fs : FileStorage) (s s' : S) (v : Volume)
      → finish z net fs s ≡ (ok v, s')
      → (file_storage_server_from_fs fs ≢ "")
        × (z ≡ v.capacity_bytes)
        × (v.volume_id ≡ fs.uuid)
        × (v.volume_context ≡ file_volume_context (file_storage_server_from_fs fs))
        × (s ≡ s')
  finish-eq-ok z net fs s s' v e = elim (Bool-cases (str_eq (file_storage_server_from_fs fs) "")) [
    | inl empty ↦ absurd (cc (rw empty at e))
    | inr filled ↦
        let e' = rw filled at e in
        (
          λ is. absurd (cc (((eq_iff (file_storage_server_from_fs fs) "").1 is), filled)),
          ground arith,
          ground arith,
          ground arith,
          ground arith,
        )
  ]

  -- The storage that was asked for, and the network whose address is handed out.
  record IsAddressed (req : CreateVolumeRequest) (s' : S) (v : Volume) : Type 0 where
    pub net : NetworkRef
    pub fs : FileStorage
    pub network : FileStorageNetwork
    pub before : S
    pub made :
        c.svc.create_file_storage req.name net
          (quot v.capacity_bytes gi_b)
          (create_volume_request_encryption_at_rest req)
          before
        ≡ (ok fs, s')
    pub named : v.volume_id ≡ fs.uuid
    pub known : IsIn network fs.networks
    pub filled : network.ip_address ≢ ""
    pub served : v.volume_context ≡ file_volume_context network.ip_address

  IsAddressed-finish :
      (req : CreateVolumeRequest) (z : ℤ) (net : NetworkRef) (fs : FileStorage) (t u s' : S)
      (v : Volume)
      → c.svc.create_file_storage req.name net
          (quot z gi_b)
          (create_volume_request_encryption_at_rest req)
          t
        ≡ (ok fs, u)
      → finish z net fs u ≡ (ok v, s')
      → IsAddressed req s' v
  IsAddressed-finish req z net fs t u s' v made e =
      let (filled, size, id, context, last) = finish-eq-ok z net fs u s' v e in
      let (n, inside, same) = filled_address fs filled in
      let create = λ (q : ℤ).
        c.svc.create_file_storage req.name net (quot q gi_b)
          (create_volume_request_encryption_at_rest req) in
      record {
        net = net;
        fs = fs;
        network = n;
        before = t;
        made =
            subst (λ q. create q t ≡ (ok fs, s')) size
              (subst (λ w. create z t ≡ (ok fs, w)) last made);
        named = id;
        known = inside;
        filled = λ is. filled (sym same ∙ is);
        served = context ∙ ap file_volume_context (sym same);
      }

  -- A file storage volume that was created carries, as NFS server, the address of one of its
  -- networks, which is not empty, and the service was asked for it with the size that it reports,
  -- in whole GiB.
  create_file_storage_volume-IsAddressed :
      (req : CreateVolumeRequest) (s s' : S) (v : Volume)
      → create_file_storage_volume c req s ≡ (ok v, s')
      → IsAddressed req s' v
  unfolding create_file_storage_volume
  create_file_storage_volume-IsAddressed req s s' v e =
      let checked =
        validate_capacity_range req.capacity_range min_file_storage_size max_file_storage_size in
      let (z, t₀, passed, e₁) =
        bind-eq-ok (map_error (λ e. status out_of_range) (lift checked)) _ s s' v e in
      let (net, t₁, found, e₂) = bind-eq-ok (discover_cluster_network c) _ t₀ s' v e₁ in
      let create =
        c.svc.create_file_storage req.name net (quot z gi_b)
          (create_volume_request_encryption_at_rest req) in
      let (fs, t₂, made, e₃) = bind-eq-ok (map_error (λ e. status internal) create) _ t₁ s' v e₂ in
      let made' = map_error-eq-ok (λ e. status internal) create t₁ t₂ fs made in
      IsAddressed-finish req z net fs t₁ t₂ s' v made' e₃
