-- ===== src/Driver/Identity.antt =====
-- What the driver of module/src keeps of its card: identity.c and identity.h, and the text that
-- cdev-sysfs.c gives of it.
use linux_pci_driver.Common.{
  ℕ, zero, suc, ◌+◌, ◌-◌, ◌*◌, ◌/◌, ◌%◌, ◌^◌, ltb, if◌then◌else◌, List, [], ◌∷◌,
}
use linux_pci_driver.Hw.Offsets.{reg_version, reg_topology, reg_mem_size, reg_caps}
use linux_pci_driver.Device.State.{VelocitorState}
use linux_pci_driver.Driver.Io.{readl}

pub record VelocitorIdentity : Type 0 where
  pub version_minor : ℕ
  pub version_major : ℕ
  pub nodes : ℕ
  pub engines : ℕ
  pub mem_size : ℕ
  pub caps : ℕ

-- `upper_16_bits` and `lower_16_bits`.
abbrev pub upper_16_bits : ℕ → ℕ
upper_16_bits n = n / 65536 % 65536

abbrev pub lower_16_bits : ℕ → ℕ
lower_16_bits n = n % 65536

unfoldable pub identity_initialize : VelocitorState → VelocitorIdentity × VelocitorState
identity_initialize s =
    let (version, s1) = readl reg_version s in
    let (topology, s2) = readl reg_topology s1 in
    let (mem_size, s3) = readl reg_mem_size s2 in
    let (caps, s4) = readl reg_caps s3 in
    (
      record {
        version_minor = lower_16_bits version;
        version_major = upper_16_bits version;
        nodes = upper_16_bits topology;
        engines = lower_16_bits topology;
        mem_size = mem_size;
        caps = caps;
      },
      s4,
    )

-- A digit below 16.
abbrev pub digit : ℕ → ℕ
digit d = if ltb d 10 then b'0' + d else b'a' + (d - 10)

-- The lowest `k` hexadecimal digits of a number, in front of some text.
abbrev pub hex_digits : ℕ → ℕ → List ℕ → List ℕ
hex_digits zero n rest = rest
hex_digits (suc k) n rest = hex_digits k (n / 16) (digit (n % 16) ∷ rest)

-- "0x%08x\n" of 32 bits.
abbrev pub emit_hex : ℕ → List ℕ
emit_hex n = b'0' ∷ b'x' ∷ hex_digits 8 n (b'\n' ∷ [])

-- The decimal digits of a number of at most `k + 1` of them.
unfoldable pub dec_digits : ℕ → ℕ → List ℕ → List ℕ
dec_digits zero n rest = digit (n % 10) ∷ rest
dec_digits (suc k) n rest =
    let more = dec_digits k (n / 10) (digit (n % 10) ∷ rest) in
    if ltb n 10 then digit n ∷ rest else more

-- "%u\n" of 32 bits.
abbrev pub emit_dec : ℕ → List ℕ
emit_dec n = dec_digits 9 n (b'\n' ∷ [])

unfoldable pub version_show : VelocitorIdentity → List ℕ
version_show i = emit_hex (i.version_major * 2 ^ 16 + i.version_minor)

unfoldable pub nodes_show : VelocitorIdentity → List ℕ
nodes_show i = emit_dec i.nodes

unfoldable pub engines_show : VelocitorIdentity → List ℕ
engines_show i = emit_dec i.engines

unfoldable pub mem_size_show : VelocitorIdentity → List ℕ
mem_size_show i = emit_dec i.mem_size

unfoldable pub caps_show : VelocitorIdentity → List ℕ
caps_show i = emit_hex i.caps
