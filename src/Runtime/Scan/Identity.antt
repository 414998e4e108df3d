-- ===== src/Runtime/Scan/Identity.antt =====
-- The registers of a card as the library of runtime/src reports them: from the driver's attributes of
-- module/src/cdev-sysfs.c to the numbers of runtime/src/scan.c.
use linux_pci_driver.Common.{
  ℕ, zero, suc, ◌+◌, ◌*◌, ◌/◌, ◌%◌, ◌^◌, ◌≤◌, ◌<◌, ltb, ◌==◌, true, false, ◌≡◌, refl, ap, subst,
  ◌∙◌, arith, ◌⊎◌, inr, some, List, [], ◌∷◌, dchoose,
}
use linux_pci_driver.Hw.Reg.{decode}
use linux_pci_driver.Device.State.{VelocitorState}
use linux_pci_driver.Device.Bar0.{bar0_read}
use linux_pci_driver.Driver.Identity.{
  VelocitorIdentity, identity_initialize, digit, hex_digits, dec_digits, emit_hex, emit_dec,
  version_show, nodes_show, engines_show, mem_size_show,
}
use linux_pci_driver.Runtime.Text.{digit_value, read_digits, digits_of, scan_i64, positive, space}
use linux_pci_driver.Runtime.Scan.{
  Attr, DeviceInfo, Sysfs, sysfs_read_u64, number_of, read_device_attrs,
}
use linux_pci_driver.Runtime.Scan.Described.{
  described, identified, device, Goes, read_device_attrs-Goes,
}

digit_value-digit : (d : ℕ) → d < 16 → digit_value (digit d) ≡ d
unfolding digit_value
digit_value-digit d lt = ground arith

abbrev power : ℕ → ℕ → ℕ
power base zero = 1
power base (suc k) = base * power base k

read-digit :
    (base value d : ℕ) (rest : List ℕ)
    → d < base
    → base ≤ 16
    → read_digits base value (digit d ∷ rest) ≡ read_digits base (value * base + d) rest
unfolding read_digits
read-digit base value d rest lt le =
    let is = digit_value-digit d (omega (arith, lt, le)) in
    let yes : ltb (digit_value (digit d)) base ≡ true = ground (arith, is) in
    rw yes (ap (λ n. read_digits base (value * base + n) rest) is)

read-hex_digits :
    (k n : ℕ) (rest : List ℕ)
    → n < power 16 k
    → read_digits 16 0 (hex_digits k n rest) ≡ read_digits 16 n rest
read-hex_digits zero n rest lt = ap (λ n. read_digits 16 n rest) (omega (arith, lt))
read-hex_digits (suc k) n rest lt =
    read-hex_digits k (n / 16) (digit (n % 16) ∷ rest) (omega (arith, lt))
    ∙ read-digit 16 (n / 16) (n % 16) rest (omega arith) (omega arith)
    ∙ ap (λ n. read_digits 16 n rest) (omega arith)

read-dec_digits :
    (k n : ℕ) (rest : List ℕ)
    → n < power 10 (suc k)
    → read_digits 10 0 (dec_digits k n rest) ≡ read_digits 10 n rest
unfolding dec_digits
read-dec_digits zero n rest lt =
    read-digit 10 0 (n % 10) rest (omega arith) (omega arith)
    ∙ ap (λ n. read_digits 10 n rest) (omega (arith, lt))
read-dec_digits (suc k) n rest lt =
    dchoose (λ l. read_digits 10 0 l ≡ read_digits 10 n rest) (ltb n 10)
      (λ small.
        read-digit 10 0 n rest (ground (arith, small)) (omega arith)
        ∙ ap (λ n. read_digits 10 n rest) (omega arith))
      (λ _.
        read-dec_digits k (n / 10) (digit (n % 10) ∷ rest) (omega (arith, lt))
        ∙ read-digit 10 (n / 10) (n % 10) rest (omega arith) (omega arith)
        ∙ ap (λ n. read_digits 10 n rest) (omega arith))

-- The text starts with a digit from 1 to 9.
abbrev Leading : List ℕ → Type 0
Leading [] = ⊥
Leading (c ∷ cs) = (b'1' ≤ c) × (c ≤ b'9')

dec_digits-Leading :
    (k n : ℕ) (rest : List ℕ) → 0 < n → n < power 10 (suc k) → Leading (dec_digits k n rest)
unfolding dec_digits
dec_digits-Leading zero n rest pos lt = (ground arith, ground arith)
dec_digits-Leading (suc k) n rest pos lt =
    dchoose Leading (ltb n 10) (λ small. (ground arith, ground arith))
      (λ big. dec_digits-Leading k (n / 10) _ (ground arith) (omega (arith, lt)))

leading_char :
    (c : ℕ)
    → b'1' ≤ c
    → c ≤ b'9'
    → (space c ≡ false)
      × ((c == b'-') ≡ false)
      × ((c == b'+') ≡ false)
      × ((c == b'0') ≡ false)
      × (ltb (digit_value c) 10 ≡ true)
unfolding digit_value
leading_char c low high = (ground arith, ground arith, ground arith, ground arith, ground arith)

scan_i64-Leading :
    (text : List ℕ) → Leading text → scan_i64 text ≡ some (read_digits 10 0 text % 2 ^ 64)
unfolding scan_i64
scan_i64-Leading [] leading = elim leading [ ]
scan_i64-Leading (c ∷ []) (low, high) =
    let (a, b, p, z, d) = leading_char c low high in rw a (rw (b, p, d) refl)
scan_i64-Leading (c ∷ x ∷ cs) (low, high) =
    let (a, b, p, z, d) = leading_char c low high in rw a (rw (b, p) (rw (z, d) refl))

digits_of-digit :
    (d : ℕ) (rest : List ℕ)
    → d < 16
    → digits_of 16 (digit d ∷ rest) ≡ some (read_digits 16 0 (digit d ∷ rest))
digits_of-digit d rest lt =
    let yes : ltb (digit_value (digit d)) 16 ≡ true = ground (arith, digit_value-digit d lt) in
    rw yes refl

digits_of-hex_digits :
    (k n : ℕ) (rest : List ℕ)
    → let text = hex_digits (suc k) n rest in digits_of 16 text ≡ some (read_digits 16 0 text)
digits_of-hex_digits zero n rest = digits_of-digit (n % 16) rest (omega arith)
digits_of-hex_digits (suc k) n rest = digits_of-hex_digits k (n / 16) (digit (n % 16) ∷ rest)

-- What the driver prints is what the library reads.
scan_i64-emit_hex : (n : ℕ) → n < 2 ^ 32 → scan_i64 (emit_hex n) ≡ some n
unfolding scan_i64 read_digits digit_value
scan_i64-emit_hex n lt =
    ap positive (
      digits_of-hex_digits 7 n (b'\n' ∷ [])
      ∙ ap some (read-hex_digits 8 n (b'\n' ∷ []) (omega (arith, lt))))
    ∙ ap some (omega (arith, lt))

scan_i64-emit_dec : (n : ℕ) → n < 2 ^ 32 → scan_i64 (emit_dec n) ≡ some n
unfolding scan_i64 read_digits digit_value dec_digits
scan_i64-emit_dec zero lt = refl
scan_i64-emit_dec (suc n) lt =
    scan_i64-Leading (emit_dec (suc n))
      (dec_digits-Leading 9 (suc n) (b'\n' ∷ []) (omega arith) (omega (arith, lt)))
    ∙ ap (λ v. some (v % 2 ^ 64)) (read-dec_digits 9 (suc n) (b'\n' ∷ []) (omega (arith, lt)))
    ∙ ap some (omega (arith, lt))

-- The identity has the widths of its fields.
pub record Bounded (i : VelocitorIdentity) : Type 0 where
  pub version_minor : i.version_minor < 2 ^ 16
  pub version_major : i.version_major < 2 ^ 16
  pub nodes : i.nodes < 2 ^ 16
  pub engines : i.engines < 2 ^ 16
  pub mem_size : i.mem_size < 2 ^ 32

-- The files of a device hold what the driver shows.
pub record Shows (fs : Sysfs) (name : List ℕ) (i : VelocitorIdentity) : Type 0 where
  pub version : fs.fopen name Attr.version ≡ inr (version_show i)
  pub mem_size : fs.fopen name Attr.mem_size ≡ inr (mem_size_show i)
  pub nodes : fs.fopen name Attr.nodes ≡ inr (nodes_show i)
  pub engines : fs.fopen name Attr.engines ≡ inr (engines_show i)

read-emit :
    (file : ℕ ⊎ List ℕ) (text : List ℕ) (n : ℕ)
    → file ≡ inr text
    → scan_i64 text ≡ some n
    → sysfs_read_u64 file ≡ inr n
unfolding sysfs_read_u64
read-emit file text n is scans = ap sysfs_read_u64 is ∙ ap number_of scans

-- The description of such a device.
described-Shows :
    (fs : Sysfs) (name : List ℕ) (i : VelocitorIdentity) (devname : List ℕ) (minor : ℕ)
    → Bounded i
    → Shows fs name i
    → identified (fs.fopen name Attr.uevent) ≡ some (devname, minor)
    → described fs name
      ≡ some (record {
        present = true;
        minor = minor;
        devname = devname;
        firmware_minor = i.version_minor;
        firmware_major = i.version_major;
        memory = i.mem_size;
        nodes = i.nodes;
        engines = i.engines;
      })
unfolding described version_show mem_size_show nodes_show engines_show
described-Shows fs name i devname minor bounded shows found =
    let v = read-emit (fs.fopen name Attr.version) _ _ shows.version (
      scan_i64-emit_hex (i.version_major * 2 ^ 16 + i.version_minor)
        (omega (arith, bounded.version_major, bounded.version_minor))) in
    let m =
      read-emit (fs.fopen name Attr.mem_size) _ _ shows.mem_size
        (scan_i64-emit_dec i.mem_size bounded.mem_size) in
    let n =
      read-emit (fs.fopen name Attr.nodes) _ _ shows.nodes
        (scan_i64-emit_dec i.nodes (omega (arith, bounded.nodes))) in
    let e =
      read-emit (fs.fopen name Attr.engines) _ _ shows.engines
        (scan_i64-emit_dec i.engines (omega (arith, bounded.engines))) in
    let low : (i.version_major * 2 ^ 16 + i.version_minor) % 2 ^ 16 ≡ i.version_minor =
      omega (arith, bounded.version_minor) in
    let high : (i.version_major * 2 ^ 16 + i.version_minor) / 2 ^ 16 % 2 ^ 32 ≡ i.version_major =
      omega (arith, bounded.version_major, bounded.version_minor) in
    let few : i.nodes % 2 ^ 32 ≡ i.nodes = omega (arith, bounded.nodes) in
    let some_engines : i.engines % 2 ^ 32 ≡ i.engines = omega (arith, bounded.engines) in
    (λ j. device (found j) (v j) (m j) (n j) (e j)) ∙ λ j. some (record {
      present = true;
      minor = minor;
      devname = devname;
      firmware_minor = low j;
      firmware_major = high j;
      memory = i.mem_size;
      nodes = few j;
      engines = some_engines j;
    })

-- From the registers to the library: a device whose attributes are what the driver shows of an
-- identity with fields of their widths, and whose `uevent` gives a name and a minor, is read without an
-- error, whatever the structure held, and then has the version, the memory, the nodes and the engines
-- of that identity.
pub read_device_attrs-Shows :
    (fs : Sysfs) (name : List ℕ) (i : VelocitorIdentity) (devname : List ℕ) (minor : ℕ)
    (d : DeviceInfo)
    → Bounded i
    → Shows fs name i
    → identified (fs.fopen name Attr.uevent) ≡ some (devname, minor)
    → read_device_attrs fs name d ≡ (
      0,
      record {
        present = true;
        minor = minor;
        devname = devname;
        firmware_minor = i.version_minor;
        firmware_major = i.version_major;
        memory = i.mem_size;
        nodes = i.nodes;
        engines = i.engines;
      },
    )
read_device_attrs-Shows fs name i devname minor d bounded shows found =
    let (no_error, read) =
      subst (λ o. Goes o (read_device_attrs fs name d))
        (described-Shows fs name i devname minor bounded shows found)
        (read_device_attrs-Goes fs name d) in
    λ j. (no_error j, read j)

-- The registers of the device itself: whatever its state, the driver's identity has the widths of its
-- fields, and reading it changes nothing.
pub identity_initialize-Bounded :
    (s : VelocitorState) → Bounded (identity_initialize s).0 × ((identity_initialize s).1 ≡ s)
unfolding identity_initialize bar0_read decode
identity_initialize-Bounded s = (
  record {
    version_minor = omega arith;
    version_major = omega arith;
    nodes = omega arith;
    engines = omega arith;
    mem_size = omega arith;
  },
  refl,
)
