-- ===== src/ControlPlane/Refinement.antt =====
-- distributed/control_plane/service.py as a refinement of the registry: every run of the service is a
-- run of actions on what it stands for.
use fed_lo_ra_public.Prelude.{
  ◌≡◌, refl, ◌∙◌, Bool, true, false, ◌&&◌, List, [], ◌∷◌, arith, Dict, lookup, has_key, insert,
  remove, lookup-insert, if◌then◌else◌, Option-cases, Bool-cases, Result-cases, inl, inr, ◌⊎◌,
}
use fed_lo_ra_public.Wire.Bytes.{Bytes, ascii, bytes_eq, bytes_beq, bytes_beq_iff}
use fed_lo_ra_public.Wire.Frame.{is_relay_data}
use fed_lo_ra_public.ControlPlane.Types.{ContainerConfig, Platform}
use fed_lo_ra_public.ControlPlane.Manifest.{validate_device_manifest}
use fed_lo_ra_public.ControlPlane.Service.{
  Service, Incoming, registered, handle_device_advertisement, handle_message, reply,
  receive_control, receive, update_containers, publish, send_container_start, send_container_stop,
  parse_request, from_dict, start_frame, stop_frame,
}
use fed_lo_ra_public.ControlPlane.Containers.{
  container_of-start, container_of-stop, container_of-receive,
}
use fed_lo_ra_public.ControlPlane.Registry.{
  Action, starts, stops, learns, idle, act, act_all, Same, act_all-Same, registry_of,
}

module _ (platform : Platform) where
  known-update :
      (s : Service platform) (device d : Bytes)
      (f : Dict Bytes ContainerConfig → Dict Bytes ContainerConfig)
      → has_key d (update_containers platform s device f).devices ≡ has_key d s.devices
  unfolding update_containers
  known-update s device d f = elim (Option-cases (lookup device s.devices)) [
    | inl absent ↦ ground (arith, absent)
    | inr (e, there) ↦ ground (
      arith,
      there,
      bytes_beq_iff device d,
      lookup-insert device d (record e { containers = f e.containers }) s.devices,
    )
  ]

  -- A frame makes one more device known, or none.
  abbrev Learns : Service platform → Service platform → Type 0
  Learns s s' =
      ((d : Bytes) → has_key d s'.devices ≡ has_key d s.devices)
      ⊎ ((name : Bytes) × ((d : Bytes)
            → has_key d s'.devices ≡ (if bytes_beq name d then true else has_key d s.devices)))

  advertised-Learns :
      (s : Service platform) (now : platform.Time) (payload : Incoming platform)
      → Learns s (handle_device_advertisement platform s now payload).0
  unfolding handle_device_advertisement
  advertised-Learns s now payload = elim (Result-cases (from_dict platform payload)) [
    | inl (info, e) ↦
        let valid = validate_device_manifest s.manifest info.name in
        let entry = registered platform (lookup info.name s.devices) info now valid in
        inr (
          info.name,
          λ d.
              ground
                (arith, e, bytes_beq_iff info.name d, lookup-insert info.name d entry s.devices),
        )
    | inr (x, e) ↦ inl (λ d. ground (arith, e))
  ]

  handled-Learns :
      (s : Service platform) (now : platform.Time) (t : Bytes) (payload : Incoming platform)
      → Learns s (handle_message platform s now t payload).0
  unfolding handle_message
  handled-Learns s now t payload = elim (Bool-cases (bytes_beq t (ascii "DEVICE_ADVERTISEMENT"))) [
    | inl same ↦ rw same (advertised-Learns s now payload)
    | inr differ ↦ rw differ (inl (λ d. refl))
  ]

  control-Learns :
      (s : Service platform) (now : platform.Time) (bytes : Bytes)
      → Learns s (receive_control platform s now bytes)
  unfolding receive_control reply
  control-Learns s now bytes = elim (Result-cases (parse_request platform s.proto_mode bytes)) [
    | inl ((t, payload), e) ↦ rw (receive_control, e) (handled-Learns s now t payload)
    | inr (x, e) ↦ rw (receive_control, e) (inl (λ d. refl))
  ]

  receive-Learns :
      (s : Service platform) (now : platform.Time) (bytes : Bytes)
      → Learns s (receive platform s now bytes)
  unfolding receive reply
  receive-Learns s now bytes = elim (Bool-cases (s.proto_mode && is_relay_data bytes)) [
    | inl relay ↦ rw relay (inl (λ d. refl))
    | inr control ↦ rw control (control-Learns s now bytes)
  ]

  -- What the service is called with: a start or a stop, with what PUB.send returns, or a frame.
  pub data Event : Type 0 where
    start : Bool → Bytes → ContainerConfig → Event
    stop : Bool → Bytes → Bytes → Event
    frame : platform.Time → Bytes → Event

  unfoldable pub step : Event → Service platform → Service platform
  step (start sent device c) s = (send_container_start platform s sent device c).0
  step (stop sent device name) s = (send_container_stop platform s sent device name).0
  step (frame now bytes) s = receive platform s now bytes

  unfoldable pub run : List Event → Service platform → Service platform
  run [] s = s
  run (e ∷ events) s = run events (step e s)

  -- The action that an event is in a state: what a call asks for if it reports success, nothing if
  -- it reports failure; a frame makes a device known, or does nothing.
  pub data Explains : Service platform → Event → Action → Type 0 where
    started :
        (s : Service platform) (sent : Bool) (device : Bytes) (c : ContainerConfig)
        → (send_container_start platform s sent device c).1 ≡ true
        → Explains s (start sent device c) (starts device c)
    start_failed :
        (s : Service platform) (sent : Bool) (device : Bytes) (c : ContainerConfig)
        → (send_container_start platform s sent device c).1 ≡ false
        → Explains s (start sent device c) idle
    stopped :
        (s : Service platform) (sent : Bool) (device name : Bytes)
        → (send_container_stop platform s sent device name).1 ≡ true
        → Explains s (stop sent device name) (stops device name)
    stop_failed :
        (s : Service platform) (sent : Bool) (device name : Bytes)
        → (send_container_stop platform s sent device name).1 ≡ false
        → Explains s (stop sent device name) idle
    learned :
        (s : Service platform) (now : platform.Time) (bytes device : Bytes)
        → has_key device (receive platform s now bytes).devices ≡ true
        → Explains s (frame now bytes) (learns device)
    answered :
        (s : Service platform) (now : platform.Time) (bytes : Bytes)
        → Explains s (frame now bytes) idle

  pub data ExplainsAll : Service platform → List Event → List Action → Type 0 where
    no_events : (s : Service platform) → ExplainsAll s [] []
    then_event :
        (s : Service platform) (e : Event) (x : Action) (events : List Event)
        (actions : List Action)
        → Explains s e x
        → ExplainsAll (step e s) events actions
        → ExplainsAll s (e ∷ events) (x ∷ actions)

  known-publish :
      (s : Service platform) (f d : Bytes)
      → has_key d (publish platform s f).devices ≡ has_key d s.devices
  unfolding publish
  known-publish s f d = refl

  known-start :
      (s : Service platform) (sent : Bool) (device : Bytes) (c : ContainerConfig) (d : Bytes)
      → has_key d (send_container_start platform s sent device c).0.devices ≡ has_key d s.devices
  unfolding send_container_start
  known-start s sent device c d = elim (Result-cases (start_frame platform s.proto_mode device c)) [
    | inl (f, e) ↦
        let kept = known-update (publish platform s f) device d (insert c.name c) in
        ground (arith, e, kept, known-publish s f d)
    | inr (x, e) ↦ ground (arith, e)
  ]

  known-stop :
      (s : Service platform) (sent : Bool) (device name d : Bytes)
      → has_key d (send_container_stop platform s sent device name).0.devices ≡ has_key d s.devices
  unfolding send_container_stop
  known-stop s sent device name d =
      let f = stop_frame platform s.proto_mode device name in
      let kept = known-update (publish platform s f) device d (remove name) in
      ground (arith, kept, known-publish s f d)

  step-refines :
      (e : Event) (s : Service platform)
      → (x : Action) × Explains s e x
        × Same (registry_of platform (step e s)) (act x (registry_of platform s))
  unfolding step registry_of act
  step-refines (start sent device c) s =
      let effect = container_of-start platform s sent device c in
      elim (Bool-cases (send_container_start platform s sent device c).1) [
        | inl done ↦ (
          starts device c,
          started s sent device c done,
          (known-start s sent device c, effect.0 done),
        )
        | inr failed ↦
            let kept = effect.1 failed in
            (
              idle,
              start_failed s sent device c failed,
              ((λ d. rw kept refl), (λ d n. rw kept refl)),
            )
      ]
  step-refines (stop sent device name) s =
      let effect = container_of-stop platform s sent device name in
      elim (Bool-cases (send_container_stop platform s sent device name).1) [
        | inl done ↦ (
          stops device name,
          stopped s sent device name done,
          (known-stop s sent device name, effect.0 done),
        )
        | inr failed ↦
            let kept = effect.1 failed in
            (
              idle,
              stop_failed s sent device name failed,
              ((λ d. rw kept refl), (λ d n. rw kept refl)),
            )
      ]
  step-refines (frame now bytes) s =
      let listed = container_of-receive platform s now bytes in
      elim (receive-Learns s now bytes) [
        | inl same ↦ (idle, answered s now bytes, (same, listed))
        | inr (device, new) ↦ (
          learns device,
          learned s now bytes device (new device ∙ ground (arith, bytes_beq_iff device device)),
          (new, listed),
        )
      ]

  -- Every run of the service is a run of the registry: a start or a stop that reports success is that
  -- action, one that reports failure is none, and a frame of any content makes a device known, or is
  -- none.
  pub run-refines :
      (events : List Event) (s : Service platform)
      → (actions : List Action) × ExplainsAll s events actions
        × Same (registry_of platform (run events s)) (act_all actions (registry_of platform s))
  unfolding run act_all
  run-refines [] s = ([], no_events s, ((λ d. refl), (λ d n. refl)))
  run-refines (e ∷ events) s =
      let (x, why, first) = step-refines e s in
      let (xs, whys, rest) = run-refines events (step e s) in
      let moved =
        act_all-Same xs (registry_of platform (step e s)) (act x (registry_of platform s)) first in
      (
        x ∷ xs,
        then_event s e x events xs why whys,
        ((λ d. rest.0 d ∙ moved.0 d), (λ d n. rest.1 d n ∙ moved.1 d n)),
      )
