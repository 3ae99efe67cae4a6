-- ===== src/ControlPlane/Refreshed.antt =====
-- distributed/control_plane/service.py: the entry of a device after its advertisement.
use fed_lo_ra_public.Prelude.{
  ◌≡◌, refl, ap, sym, ◌∙◌, ◌↔◌, ◌⊎◌, Bool, true, false, List, [], ◌∷◌, Option, none, some, arith,
  lookup, Elem, Bool-cases, inl, inr, if◌then◌else◌,
}
use mathlib.Core.Path.{subst}
use fed_lo_ra_public.Wire.Bytes.{Bytes, bytes_eq, bytes_beq, bytes_beq_iff}
use fed_lo_ra_public.ControlPlane.Types.{DeviceInfo, Platform, Manifest, ManifestClient}
use fed_lo_ra_public.ControlPlane.Manifest.{
  validate_device_manifest, names_device, is_truthy, manifest_clients,
}
use fed_lo_ra_public.ControlPlane.Service.{Service, RegisteredDevice, registered}

-- The manifest is absent or empty, or it has a client on the device.
abbrev pub IsExpected : Option Manifest → Bytes → Type 0
IsExpected none name = Unit {0}
IsExpected (some m) name =
    ((m.clients ≡ none) × (m.has_other_keys ≡ false))
    ⊎ ((cs : List ManifestClient) × (m.clients ≡ some cs)
        × (c : ManifestClient) × Elem c cs
        × (c.device_name ≡ some name))

on_device_iff :
    (o : Option Bytes) (name : Bytes)
    → (elim o [ none ↦ false | some n ↦ bytes_beq n name ] ≡ true) ↔ (o ≡ some name)
on_device_iff none name = (λ h. absurd (cc h), λ h. absurd (cc h))
on_device_iff (some n) name = (
  λ h. ap some ((bytes_beq_iff n name).0 h),
  λ h. (bytes_beq_iff n name).1 (ap (λ o. elim o [ none ↦ n | some x ↦ x ]) h),
)

names_device_iff :
    (name : Bytes) (cs : List ManifestClient)
    → (names_device name cs ≡ true)
      ↔ ((c : ManifestClient) × Elem c cs × (c.device_name ≡ some name))
unfolding names_device
names_device_iff name [] = (λ h. absurd (cc h), λ w. absurd w.1)
names_device_iff name (c ∷ cs) =
    let here = on_device_iff c.device_name name in
    let rest = names_device_iff name cs in
    let name_of = λ (x : ManifestClient). x.device_name in
    elim (Bool-cases (elim c.device_name [ none ↦ false | some n ↦ bytes_beq n name ])) [
      | inl same ↦ (λ _. (c, inl refl, here.0 same), λ _. ground (arith, same))
      | inr differ ↦ (
        λ h. let (d, m, e) = rest.0 (ground (arith, h, differ)) in (d, inr m, e),
        λ w. elim w.1 [
          | inl e ↦ absurd (ground (arith, differ, here.1 (ap name_of (sym e) ∙ w.2)))
          | inr m ↦ ground (arith, rest.1 (w.0, m, w.2))
        ],
      )
    ]

parts_iff :
    (clients : Option (List ManifestClient)) (has_other_keys : Bool) (name : Bytes)
    → ((if elim clients [ none ↦ has_other_keys | some cs ↦ true ]
          then names_device name (elim clients [ none ↦ [] | some cs ↦ cs ])
          else true)
        ≡ true)
      ↔ (((clients ≡ none) × (has_other_keys ≡ false))
          ⊎ ((cs : List ManifestClient) × (clients ≡ some cs)
              × (c : ManifestClient) × Elem c cs
              × (c.device_name ≡ some name)))
unfolding names_device
parts_iff none true name =
    (λ h. absurd (cc h), λ w. elim w [ inl e ↦ absurd (cc (e.1)) | inr e ↦ absurd (cc (e.1)) ])
parts_iff none false name = (λ _. inl (refl, refl), λ _. refl)
parts_iff (some cs) other name =
    let named = names_device_iff name cs in
    (
      λ h. let (c, m, e) = named.0 h in inr (cs, refl, c, m, e),
      λ w. elim w [
        | inl e ↦ absurd (cc (e.0))
        | inr (ds, same, c, m, e) ↦
            let same' = ap (λ o. elim o [ none ↦ cs | some x ↦ x ]) same in
            named.1 (c, subst (Elem c) (sym same') m, e)
      ],
    )

validate_iff :
    (manifest : Option Manifest) (name : Bytes)
    → (validate_device_manifest manifest name ≡ true) ↔ IsExpected manifest name
unfolding validate_device_manifest is_truthy manifest_clients
validate_iff none name = (λ _. tt, λ _. refl)
validate_iff (some m) name = parts_iff m.clients m.has_other_keys name

module _ (platform : Platform) where
  -- The entry of a device after its advertisement at the time `now`.
  pub record IsRefreshed (s : Service platform) (now : platform.Time) (info : DeviceInfo)
      (e : RegisteredDevice platform) : Type 0 where
    pub has_info : e.info ≡ info
    pub seen_now : e.last_seen ≡ now
    pub is_new : lookup info.name s.devices ≡ none → (e.registered_at ≡ now) × (e.containers ≡ [])
    pub is_known :
        (d : RegisteredDevice platform)
        → lookup info.name s.devices ≡ some d
        → (e.registered_at ≡ d.registered_at) × (e.containers ≡ d.containers)
    pub health : (e.is_healthy ≡ true) ↔ IsExpected s.manifest info.name

  registered_lem :
      (before : Option (RegisteredDevice platform)) (info : DeviceInfo) (now : platform.Time)
      (healthy : Bool)
      → let e = registered platform before info now healthy in
        (e.info ≡ info)
        × (e.last_seen ≡ now)
        × (before ≡ none → (e.registered_at ≡ now) × (e.containers ≡ []))
        × ((d : RegisteredDevice platform)
            → before ≡ some d
            → (e.registered_at ≡ d.registered_at) × (e.containers ≡ d.containers))
        × (e.is_healthy ≡ healthy)
  unfolding registered
  registered_lem none info now healthy =
      (refl, refl, λ _. (refl, refl), λ d found. absurd (cc found), refl)
  registered_lem (some b) info now healthy = (
    refl,
    refl,
    λ new. absurd (cc new),
    λ d found. (
      ap (λ o. elim o [ none ↦ b.registered_at | some x ↦ x.registered_at ]) found,
      ap (λ o. elim o [ none ↦ b.containers | some x ↦ x.containers ]) found,
    ),
    refl,
  )

  pub registered-IsRefreshed :
      (s : Service platform) (now : platform.Time) (info : DeviceInfo)
      → IsRefreshed s now info (
          registered platform
            (lookup info.name s.devices)
            info
            now
            (validate_device_manifest s.manifest info.name))
  registered-IsRefreshed s now info =
      let valid = validate_device_manifest s.manifest info.name in
      let (same, seen, new, known, healthy) =
        registered_lem (lookup info.name s.devices) info now valid in
      let expected = validate_iff s.manifest info.name in
      record {
        has_info = same;
        seen_now = seen;
        is_new = new;
        is_known = known;
        health = (λ h. expected.0 (sym healthy ∙ h), λ h. healthy ∙ expected.1 h);
      }
