-- ===== src/Container/Blockio/Throttle.antt =====
-- container.go: the devices that the two blkio.throttle files are merged into.
use systats.Container.Blockio.{
  Devices, Setter, device_of, parse_dev_num, get_device, store_device, set_operation,
  throttle_entry, throttle_line, throttle_lines, throttled,
}
use systats.Container.Types.{ContainerBlockIo}
use systats.Go.Strconv.{Parsed, parsed, parse_uint}
use systats.Go.Strings.{fields, lines}
use systats.Prelude.Text.{Text, eqb, eqb_iff}
use systats.Prelude.{
  ℕ, ◌≡◌, refl, sym, subst, ap, ◌∙◌, false, Option, none, some, List, [], ◌∷◌, ◌++◌, All,
  All-append, arith, Bool-cases, Option-cases, inl, inr,
}
use systats.Stats.{lookup}

-- No device stands under that text.
abbrev pub Absent : Text → Devices → Type 0
Absent k = All (λ e. eqb e.0 k ≡ false)

-- The device has the numbers of its text.
abbrev pub HasNumbers : Text → ContainerBlockIo → Type 0
HasNumbers k d = parse_dev_num k ≡ some (d.major, d.minor)

-- Each text stands once, and its device has its numbers.
abbrev pub AreDevices : Devices → Type 0
AreDevices [] = Unit
AreDevices ((k, d) ∷ devices) = HasNumbers k d × Absent k devices × AreDevices devices

-- Writing a figure leaves the numbers.
abbrev KeepsNumbers : Setter → Type 0
KeepsNumbers set =
    (d : ContainerBlockIo) (n : ℕ) → ((set d n).major ≡ d.major) × ((set d n).minor ≡ d.minor)

eqb_sym : (s t : Text) → eqb s t ≡ false → eqb t s ≡ false
eqb_sym s t h = ground (arith, eqb_iff s t, eqb_iff t s)

some-injective : {d e : ContainerBlockIo} → some d ≡ some e → d ≡ e
some-injective h = cc

lookup-HasNumbers :
    (k : Text) (devices : Devices) {d : ContainerBlockIo}
    → AreDevices devices
    → lookup k devices ≡ some d
    → HasNumbers k d
unfolding lookup
lookup-HasNumbers k [] a h = cc
lookup-HasNumbers k ((j, e) ∷ devices) a h = elim (Bool-cases (eqb j k)) [
  | inl q ↦
      subst (HasNumbers k) (some-injective (rw q at h))
        (ap parse_dev_num (sym ((eqb_iff j k).0 q)) ∙ a.0)
  | inr q ↦ lookup-HasNumbers k devices a.2 (rw q at h)
]

lookup-Absent : (k : Text) (devices : Devices) → lookup k devices ≡ none → Absent k devices
unfolding lookup
lookup-Absent k [] h = tt
lookup-Absent k ((j, e) ∷ devices) h = elim (Bool-cases (eqb j k)) [
  | inl q ↦ cc
  | inr q ↦ (q, lookup-Absent k devices (rw q at h))
]

-- A device with a new text goes behind the others.
concat-AreDevices :
    (devices : Devices) (k : Text) (d : ContainerBlockIo)
    → AreDevices devices
    → Absent k devices
    → HasNumbers k d
    → AreDevices (devices ++ (k, d) ∷ [])
concat-AreDevices [] k d a h n = (n, tt, tt)
concat-AreDevices ((j, e) ∷ devices) k d a h n = (
  a.0,
  All-append (λ x. eqb x.0 j ≡ false) devices ((k, d) ∷ []) a.1 (eqb_sym j k h.0, tt),
  concat-AreDevices devices k d a.2 h.1 n,
)

store-Absent :
    (k j : Text) (d : ContainerBlockIo) (devices : Devices)
    → Absent k devices
    → Absent k (store_device j d devices)
unfolding store_device
store-Absent k j d [] h = tt
store-Absent k j d ((i, e) ∷ devices) h = elim (Bool-cases (eqb i j)) [
  | inl q ↦ rw q h
  | inr q ↦ rw (q, store_device) (h.0, store-Absent k j d devices h.1)
]

store-AreDevices :
    (k : Text) (d : ContainerBlockIo) (devices : Devices)
    → AreDevices devices
    → HasNumbers k d
    → AreDevices (store_device k d devices)
unfolding store_device
store-AreDevices k d [] a n = tt
store-AreDevices k d ((j, e) ∷ devices) a n = elim (Bool-cases (eqb j k)) [
  | inl q ↦ rw q (ap parse_dev_num ((eqb_iff j k).0 q) ∙ n, a.1, a.2)
  | inr q ↦
      rw (q, store_device) (a.0, store-Absent j k d devices a.1, store-AreDevices k d devices a.2 n)
]

set_operation-HasNumbers :
    (k operation : Text) (n : ℕ) (read write : Setter) (d : ContainerBlockIo)
    → KeepsNumbers read
    → KeepsNumbers write
    → HasNumbers k d
    → HasNumbers k (set_operation operation n read write d)
set_operation-HasNumbers k operation n read write d r w h = ground (arith, r d n, w d n)

-- What looking a device up can give: nothing, or it, and the devices with it among them.
abbrev Gives : Text → Option (Devices × ContainerBlockIo) → Type 0
Gives dev none = Unit
Gives dev (some (devices, d)) = AreDevices devices × HasNumbers dev d

new_device :
    (dev : Text) (numbers : Option (ℕ × ℕ)) (devices : Devices)
    → parse_dev_num dev ≡ numbers
    → AreDevices devices
    → Absent dev devices
    → Gives dev (elim numbers [
      | none ↦ none
      | some (major, minor) ↦
          some (devices ++ (dev, device_of [] major minor) ∷ [], device_of [] major minor)
    ])
new_device dev none devices e a h = tt
new_device dev (some (major, minor)) devices e a h =
    (concat-AreDevices devices dev (device_of [] major minor) a h e, e)

get_device-Gives :
    (dev : Text) (devices : Devices) → AreDevices devices → Gives dev (get_device dev devices)
unfolding get_device
get_device-Gives dev devices a = elim (Option-cases (lookup dev devices)) [
  | inl e ↦
      rw (e, get_device)
        (new_device dev (parse_dev_num dev) devices refl a (lookup-Absent dev devices e))
  | inr (d, e) ↦ rw (e, get_device) (a, lookup-HasNumbers dev devices a e)
]

throttle_entry-AreDevices :
    (dev operation : Text) (value : Parsed ℕ) (read write : Setter) (devices : Devices)
    → KeepsNumbers read
    → KeepsNumbers write
    → AreDevices devices
    → AreDevices (throttle_entry dev operation value read write devices)
unfolding throttle_entry
throttle_entry-AreDevices dev operation (parsed n) read write devices r w a =
    elim (Option-cases (get_device dev devices)) [
      | inl e ↦ rw (e, throttle_entry) a
      | inr ((devices', d), e) ↦
          let (a', h) = subst (Gives dev) e (get_device-Gives dev devices a) in
          rw (e, throttle_entry)
            (store-AreDevices dev (set_operation operation n read write d) devices' a'
              (set_operation-HasNumbers dev operation n read write d r w h))
    ]
throttle_entry-AreDevices dev operation _ read write devices r w a = a

throttle_line-AreDevices :
    (f : List Text) (read write : Setter) (devices : Devices)
    → KeepsNumbers read
    → KeepsNumbers write
    → AreDevices devices
    → AreDevices (throttle_line f read write devices)
unfolding throttle_line
throttle_line-AreDevices (dev ∷ operation ∷ value ∷ []) read write devices r w a =
    throttle_entry-AreDevices dev operation (parse_uint value) read write devices r w a
throttle_line-AreDevices _ read write devices r w a = a

throttle_lines-AreDevices :
    (ls : List Text) (read write : Setter) (devices : Devices)
    → KeepsNumbers read
    → KeepsNumbers write
    → AreDevices devices
    → AreDevices (throttle_lines ls read write devices)
unfolding throttle_lines
throttle_lines-AreDevices [] read write devices r w a = a
throttle_lines-AreDevices (l ∷ ls) read write devices r w a =
    throttle_lines-AreDevices ls read write (throttle_line (fields l) read write devices) r w
      (throttle_line-AreDevices (fields l) read write devices r w a)

-- Whatever the two files hold, each device text stands once among the devices that they are merged
-- into, and its device has the major and minor numbers of that text.
pub throttled-AreDevices :
    (bytes_content ops_content : Text) → AreDevices (throttled bytes_content ops_content)
unfolding throttled
throttled-AreDevices bytes_content ops_content =
    throttle_lines-AreDevices (lines ops_content) _ _ _ (λ d n. (refl, refl)) (λ d n. (refl, refl))
      (throttle_lines-AreDevices (lines bytes_content) _ _ [] (λ d n. (refl, refl))
        (λ d n. (refl, refl)) tt)
