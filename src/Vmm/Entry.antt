-- ===== src/Vmm/Entry.antt =====
-- Words of a page table (kernel/mm/vmm.h): an address of a page and flags, apart.
use mmd_os.Base.{
  ℕ, ◌+◌, ◌*◌, ◌/◌, ◌%◌, ◌^◌, ◌<◌, ◌≡◌, sym, ap, ap₂, ◌∙◌, arith, ◌!=◌, bit_or, bit_and-ones,
  bit_and-field, bit_or-low, or_fields,
}
use native.Mathlib.Nat.{one-le-pow, mul-div_cancel}
use mmd_os.Vmm.{pte_get_addr, lvl_offset, is_present}

pub get_addr_lem : (pte : ℕ) → pte_get_addr pte ≡ pte / 4096 % 2 ^ 40 * 4096
get_addr_lem pte = bit_and-field 12 40 pte

pub lvl_offset_lem : (shift virt : ℕ) → lvl_offset shift virt ≡ virt / 2 ^ shift % 512
lvl_offset_lem shift virt =
    ap (λ x. x / 2 ^ shift) (bit_and-field shift 9 virt)
    ∙ mul-div_cancel (virt / 2 ^ shift % 512) (omega (arith, one-le-pow shift 2))

pub is_present_lem : (pte : ℕ) → is_present pte ≡ (pte % 2 != 0)
is_present_lem pte = ap (λ x. x != 0) (bit_and-ones 1 pte)

-- Flags stand in the low 12 bits and in the bits from 52 on.
abbrev pub AreFlags : ℕ → Type 0
AreFlags flags = (flags % 2 ^ 52 < 4096) × (flags < 2 ^ 64)

pub or_flags :
    (page flags : ℕ)
    → page < 2 ^ 40
    → AreFlags flags
    → bit_or (page * 4096) flags ≡ page * 4096 + flags
or_flags page flags h f =
    ap₂ bit_or page_fields flag_fields
    ∙ or_fields 52 0 (page * 4096) (flags / 2 ^ 52) (flags % 2 ^ 52) (omega arith) (omega arith)
    ∙ omega (
      arith,
      bit_or-low 12 page (flags % 2 ^ 52) f.0,
      bit_or-low 52 0 (flags / 2 ^ 52) (omega (arith, f.1)),
    )
  where
    page_fields : page * 4096 ≡ 0 * 2 ^ 52 + page * 4096
    page_fields = omega arith

    flag_fields : flags ≡ flags / 2 ^ 52 * 2 ^ 52 + flags % 2 ^ 52
    flag_fields = omega arith

-- The address and the flags of an entry that holds both.
pub addr-or_flags :
    (page flags : ℕ)
    → page < 2 ^ 40
    → AreFlags flags
    → pte_get_addr (bit_or (page * 4096) flags) ≡ page * 4096
addr-or_flags page flags h f =
    omega (arith, get_addr_lem (bit_or (page * 4096) flags), or_flags page flags h f, f.0, f.1)

pub or_flags-fits :
    (page flags : ℕ) → page < 2 ^ 40 → AreFlags flags → bit_or (page * 4096) flags < 2 ^ 64
or_flags-fits page flags h f = omega (arith, or_flags page flags h f, f.0, f.1)

pub present-or_flags :
    (page flags : ℕ)
    → page < 2 ^ 40
    → AreFlags flags
    → is_present (bit_or (page * 4096) flags) ≡ is_present flags
present-or_flags page flags h f =
    is_present_lem (bit_or (page * 4096) flags)
    ∙ ap (λ x. x != 0) parity
    ∙ sym (is_present_lem flags)
  where
    parity : bit_or (page * 4096) flags % 2 ≡ flags % 2
    parity = omega (arith, or_flags page flags h f)
