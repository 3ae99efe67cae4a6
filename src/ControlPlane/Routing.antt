-- ===== src/ControlPlane/Routing.antt =====
-- distributed/control_plane/service.py: the routing table and the bandwidth map that are read from
-- the manifest, and the wait for devices.
use fed_lo_ra_public.Prelude.{
  ℕ, ◌-◌, ltb→lt, ◌≡◌, ◌<◌, ◌≤◌, ◌+◌, length, ltb, ap, ◌⊎◌, Result, name_error, ◌↔◌, refl, Bool,
  true, false, List, [], ◌∷◌, Option, none, some, arith, Dict, nat_eq, lookup, insert, has_key,
  lookup-insert, lookup-nil, if◌then◌else◌, ok, raise, key_error, ◌==◌, Elem, inl, inr, Bool-cases,
  Option-cases,
}
use mathlib.Core.Path.{subst}
use fed_lo_ra_public.Wire.Bytes.{Bytes, bytes_eq}
use fed_lo_ra_public.ControlPlane.Types.{Manifest, ManifestClient, Platform}
use fed_lo_ra_public.ControlPlane.Manifest.{
  Route, is_truthy, manifest_clients, required, routes_from, build_client_routing_table,
}
use fed_lo_ra_public.ControlPlane.Service.{
  RegisteredDevice, Reading, all_registered, wait_loop, wait_for_devices,
}

-- The entry has the three keys that routing reads.
route_of : ManifestClient → Option (ℕ × Route)
route_of c = elim c.client_id [
  | none ↦ none
  | some i ↦ (elim c.device_name [
    | none ↦ none
    | some d ↦ (elim c.container_name [
      | none ↦ none
      | some n ↦ some (i, record { device_name = d; container_name = n })
    ])
  ])
]

pub is_complete : List ManifestClient → Bool
is_complete [] = true
is_complete (c ∷ cs) = elim (route_of c) [ none ↦ false | some r ↦ is_complete cs ]

-- The route of the last entry with the client's id, and `before` if there is none.
pub last_route : Option Route → ℕ → List ManifestClient → Option Route
last_route before i [] = before
last_route before i (c ∷ cs) =
    last_route
      (elim (route_of c) [ none ↦ before | some (j, r) ↦ if j == i then some r else before ]) i cs

complete_head :
    (c : ManifestClient) (cs : List ManifestClient)
    → is_complete (c ∷ cs) ≡ true
    → (i : ℕ) × (d : Bytes) × (n : Bytes) × (c.client_id ≡ some i)
      × (c.device_name ≡ some d)
      × (c.container_name ≡ some n)
      × (is_complete cs ≡ true)
unfolding is_complete route_of
complete_head c cs h = ground arith

routes_from_complete :
    (cs : List ManifestClient) (routing : Dict ℕ Route)
    → is_complete cs ≡ true
    → (table : Dict ℕ Route) × (routes_from routing cs ≡ ok table)
      × ((i : ℕ) → lookup i table ≡ last_route (lookup i routing) i cs)
unfolding routes_from last_route route_of required
routes_from_complete [] routing h = (routing, refl, λ i. refl)
routes_from_complete (c ∷ cs) routing h =
    let (i, d, n, has_id, has_device, has_name, rest) = complete_head c cs h in
    let route : Route = record { device_name = d; container_name = n } in
    let (table, built, found) = routes_from_complete cs (insert i route routing) rest in
    (
      table,
      rw (has_id, has_device, has_name) built,
      λ k. rw (has_id, has_device, has_name) (rw (lookup-insert i k route routing) at (found k)),
    )

routes_from_incomplete :
    (cs : List ManifestClient) (routing : Dict ℕ Route)
    → is_complete cs ≡ false
    → routes_from routing cs ≡ raise key_error
unfolding routes_from is_complete route_of required
routes_from_incomplete [] routing h = cc
routes_from_incomplete (c ∷ cs) routing h = elim (Option-cases c.client_id) [
  | inl a ↦ ground arith
  | inr (i, a) ↦ elim (Option-cases c.device_name) [
    | inl b ↦ ground arith
    | inr (d, b) ↦ elim (Option-cases c.container_name) [
      | inl e ↦ ground arith
      | inr (n, e) ↦ ground (
        arith,
        routes_from_incomplete cs
            (insert i (record { device_name = d; container_name = n }) routing),
      )
    ]
  ]
]

-- The routing table is built exactly when every entry of the manifest has its client id, device
-- and container; then a client is routed to what the last entry with its id says.
pub build_client_routing_table_lem :
    (m : Manifest)
    → is_truthy (some m) ≡ true
    → (is_complete (manifest_clients m) ≡ true
        → (table : Dict ℕ Route) × (build_client_routing_table (some m) ≡ ok table)
          × ((i : ℕ) → lookup i table ≡ last_route none i (manifest_clients m)))
      × (is_complete (manifest_clients m) ≡ false
          → build_client_routing_table (some m) ≡ raise key_error)
unfolding build_client_routing_table
build_client_routing_table_lem m h = (
  λ complete.
      let (table, built, found) = routes_from_complete (manifest_clients m) [] complete in
      (table, rw h built, λ i. rw (lookup-nil {K = ℕ} {V = Route} i) at (found i)),
  λ incomplete. rw h (routes_from_incomplete (manifest_clients m) [] incomplete),
)

module _ (platform : Platform) where
  all_registered_iff :
      (names : List Bytes) (registry : Dict Bytes (RegisteredDevice platform))
      → (all_registered platform names registry ≡ true)
        ↔ ((n : Bytes) → Elem n names → has_key n registry ≡ true)
  unfolding all_registered
  all_registered_iff [] registry = (λ _ n m. absurd m, λ _. refl)
  all_registered_iff (x ∷ names) registry =
      let rest = all_registered_iff names registry in
      (
        λ h n m. elim m [
          | inl same ↦ rw same (ground arith)
          | inr later ↦ rest.0 (ground arith) n later
        ],
        λ h. let first = h x (inl refl) in let others = rest.1 (λ n m. h n (inr m)) in ground arith,
      )

  -- Some poll before the timeout sees every device of the list.
  abbrev pub Sees : List Bytes → ℕ → List (Reading platform) → Type 0
  Sees names timeout readings =
      (r : Reading platform) × Elem r readings
      × (r.elapsed < timeout)
      × ((n : Bytes) → Elem n names → has_key n r.registry ≡ true)

  -- From `start` on, and from one reading to the next, at least the interval passes.
  abbrev pub IsTicking : ℕ → ℕ → List (Reading platform) → Type 0
  IsTicking interval start [] = Unit {0}
  IsTicking interval start (r ∷ readings) =
      (start ≤ r.elapsed) × IsTicking interval (r.elapsed + interval) readings

  -- The first reading is at the timeout or after it.
  abbrev pub IsLate : ℕ → List (Reading platform) → Type 0
  IsLate timeout [] = ⊥
  IsLate timeout (r ∷ readings) = timeout ≤ r.elapsed

  -- What the wait ends with: True exactly where a poll before the timeout sees the devices, an
  -- exception exactly where there is no time for a poll, and else False.
  abbrev pub IsWaited : List Bytes → ℕ → List (Reading platform) → Result Bool → Type 0
  IsWaited names timeout readings outcome =
      ((outcome ≡ ok true) ↔ Sees names timeout readings)
      × ((outcome ≡ raise name_error) ↔ IsLate timeout readings)
      × ((outcome ≡ ok true) ⊎ ((outcome ≡ ok false) ⊎ (outcome ≡ raise name_error)))

  nothing_later :
      (names : List Bytes) (timeout interval start : ℕ) (readings : List (Reading platform))
      → timeout ≤ start
      → IsTicking interval start readings
      → Sees names timeout readings
      → ⊥
  nothing_later names timeout interval start [] late ticks (r, m, _, _) = m
  nothing_later names timeout interval start (x ∷ readings) late ticks (r, inl e, before, _) =
      omega (arith, late, ticks.0, ap (λ (y : Reading platform). y.elapsed) e, before)
  nothing_later names timeout interval start (x ∷ readings) late ticks (r, inr m, before, known) =
      nothing_later names timeout interval (x.elapsed + interval) readings
        (omega (arith, late, ticks.0)) ticks.1 (r, m, before, known)

  -- What the loop ends with, once there was a poll.
  wait_loop_ends :
      (names : List Bytes) (timeout interval start : ℕ) (readings : List (Reading platform))
      → 0 < interval
      → IsTicking interval start readings
      → timeout - start < length readings
      → ((wait_loop platform names timeout true readings ≡ some (ok true))
          × Sees names timeout readings)
        ⊎ ((wait_loop platform names timeout true readings ≡ some (ok false))
            × (Sees names timeout readings → ⊥))
  unfolding wait_loop
  wait_loop_ends names timeout interval start [] some_time ticks enough =
      absurd (omega (arith, enough))
  wait_loop_ends names timeout interval start (r ∷ readings) some_time ticks enough =
      elim (Bool-cases (ltb r.elapsed timeout)) [
        | inr late ↦ inr (
          ground (arith, late),
          nothing_later names timeout interval r.elapsed (r ∷ readings) (ground (arith, late))
              (omega arith, ticks.1),
        )
        | inl early ↦ elim (Bool-cases (all_registered platform names r.registry)) [
          | inl all ↦ inl (
            ground (arith, early, all),
            (r, inl refl, ground (arith, early), (all_registered_iff names r.registry).0 all),
          )
          | inr missing ↦
              let rest =
                wait_loop_ends names timeout interval (r.elapsed + interval) readings some_time
                  ticks.1
                  (omega (arith, enough, ticks.0, some_time, ltb→lt r.elapsed timeout early)) in
              elim rest [
                | inl (done, w) ↦
                    inl (ground (arith, early, missing, done), (w.0, inr w.1, w.2, w.3))
                | inr (done, unseen) ↦ inr (
                  ground (arith, early, missing, done),
                  λ w. elim w.1 [
                    | inl e ↦ absurd (
                        ground (
                          arith,
                          missing,
                          (all_registered_iff names r.registry).1 (
                              subst
                                (λ (x : Reading platform).
                                  (n : Bytes) → Elem n names → has_key n x.registry ≡ true)
                                e w.3),
                        ))
                    | inr m ↦ unseen (w.0, m, w.2, w.3)
                  ],
                )
              ]
        ]
      ]

  -- With readings that are a positive interval apart, and more of them than the timeout, the wait
  -- ends: with True exactly where a poll before the timeout sees every device of the list, with an
  -- exception exactly where the first reading is not before the timeout, and else with False.
  pub wait_for_devices_iff :
      (names : List Bytes) (timeout interval : ℕ) (readings : List (Reading platform))
      → 0 < interval
      → IsTicking interval 0 readings
      → timeout < length readings
      → (outcome : Result Bool) × (wait_for_devices platform names timeout readings ≡ some outcome)
        × IsWaited names timeout readings outcome
  unfolding wait_for_devices wait_loop
  wait_for_devices_iff names timeout interval [] some_time ticks enough =
      absurd (omega (arith, enough))
  wait_for_devices_iff names timeout interval (r ∷ readings) some_time ticks enough =
      elim (Bool-cases (ltb r.elapsed timeout)) [
        | inr late ↦ (
          raise name_error,
          ground (arith, late),
          (
            (
              λ e. absurd (cc e),
              λ w. absurd (
                  nothing_later names timeout interval r.elapsed (r ∷ readings)
                    (ground (arith, late)) (omega arith, ticks.1) w),
            ),
            (λ _. ground (arith, late), λ _. refl),
            inr (inr refl),
          ),
        )
        | inl early ↦
            let in_time : timeout ≤ r.elapsed → ⊥ = λ h. ground (arith, early, h) in
            elim (wait_loop_ends names timeout interval 0 (r ∷ readings) some_time ticks
              (omega (arith, enough))) [
                | inl (done, w) ↦ (
                  ok true,
                  ground (arith, early, done),
                  ((λ _. w, λ _. refl), (λ e. absurd (cc e), λ h. absurd (in_time h)), inl refl),
                )
                | inr (done, unseen) ↦ (
                  ok false,
                  ground (arith, early, done),
                  (
                    (λ e. absurd (cc e), λ w. absurd (unseen w)),
                    (λ e. absurd (cc e), λ h. absurd (in_time h)),
                    inr (inl refl),
                  ),
                )
              ]
      ]
