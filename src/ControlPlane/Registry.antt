-- ===== src/ControlPlane/Registry.antt =====
-- distributed/control_plane/service.py against a registry without a representation: which devices
-- are known, and which container is listed under a device and a name.
use fed_lo_ra_public.Prelude.{
  ◌≡◌, Bool, true, ◌&&◌, List, [], ◌∷◌, Option, none, some, arith, has_key, if◌then◌else◌,
}
use fed_lo_ra_public.Wire.Bytes.{Bytes, bytes_eq, bytes_beq}
use fed_lo_ra_public.ControlPlane.Types.{ContainerConfig, Platform}
use fed_lo_ra_public.ControlPlane.Service.{Service}
use fed_lo_ra_public.ControlPlane.Containers.{container_of}

pub record Registry : Type 0 where
  pub known : Bytes → Bool
  pub listed : Bytes → Bytes → Option ContainerConfig

pub data Action : Type 0 where
  starts : Bytes → ContainerConfig → Action
  stops : Bytes → Bytes → Action
  learns : Bytes → Action
  idle : Action

-- What an action does to the registry. A container is listed under a known device only.
unfoldable pub act : Action → Registry → Registry
act (starts device c) a = record a {
  listed = λ d n.
      if a.known device && (bytes_beq device d && bytes_beq c.name n) then some c else a.listed d n;
}
act (stops device name) a = record a {
  listed = λ d n. if bytes_beq device d && bytes_beq name n then none else a.listed d n;
}
act (learns device) a = record a { known = λ d. if bytes_beq device d then true else a.known d }
act idle a = a

unfoldable pub act_all : List Action → Registry → Registry
act_all [] a = a
act_all (x ∷ xs) a = act_all xs (act x a)

-- The same devices and the same containers.
abbrev pub Same : Registry → Registry → Type 0
Same a b = ((d : Bytes) → a.known d ≡ b.known d) × ((d n : Bytes) → a.listed d n ≡ b.listed d n)

act-Same : (x : Action) (a b : Registry) → Same a b → Same (act x a) (act x b)
unfolding act
act-Same (starts device c) a b h = (h.0, λ d n. ground (arith, h.0 device, h.1 d n))
act-Same (stops device name) a b h = (h.0, λ d n. ground (arith, h.1 d n))
act-Same (learns device) a b h = ((λ d. ground (arith, h.0 d)), h.1)
act-Same idle a b h = h

pub act_all-Same :
    (xs : List Action) (a b : Registry) → Same a b → Same (act_all xs a) (act_all xs b)
unfolding act_all
act_all-Same [] a b h = h
act_all-Same (x ∷ xs) a b h = act_all-Same xs (act x a) (act x b) (act-Same x a b h)

module _ (platform : Platform) where
  -- The registry that the service stands for.
  unfoldable pub registry_of : Service platform → Registry
  registry_of s = record {
    known = λ d. has_key d s.devices;
    listed = λ d n. container_of platform s d n;
  }
