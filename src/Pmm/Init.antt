-- ===== src/Pmm/Init.antt =====
-- `pmm_init` of kernel/mm/pmm.c, and the rounding macros of kernel/lib/util.h that it uses.
pub mod Laws
pub mod Marks
pub mod Ready
use mmd_os.Base.{
  ℕ, zero, suc, ◌+◌, ◌-◌, ◌*◌, ◌/◌, ◌%◌, ◌^◌, Bool, true, false, if◌then◌else◌, ltb, leb, ◌==◌, u64,
  Outcome, ok, panicked, spinning, List, [], ◌∷◌, ◌&&◌, length,
}
use mmd_os.Memory.{Memory, memset}
use mmd_os.Pmm.{Pmm, bitmap_clear, page_size}

-- `DIV_ROUNDUP` and `ALIGN_UP` at `uint64_t`.
abbrev pub div_roundup : ℕ → ℕ → ℕ
div_roundup value div = u64 (value + (div - 1)) / div

abbrev pub align_up : ℕ → ℕ → ℕ
align_up value align = u64 (div_roundup value align * align)

-- `struct limine_memmap_entry`; the type 0 is LIMINE_MEMMAP_USABLE.
pub record Entry : Type 0 where
  pub base : ℕ
  pub len : ℕ
  pub kind : ℕ

abbrev pub is_usable : Entry → Bool
is_usable e = e.kind == 0

-- `MAX(highest_addr, entry->base + entry->length)`
abbrev pub raise : ℕ → ℕ → ℕ
raise a b = if ltb b a then a else b

-- The first loop: the highest end of a usable entry.
unfoldable pub highest : List Entry → ℕ → ℕ
highest [] highest_addr = highest_addr
highest (e ∷ es) highest_addr =
    highest es (if is_usable e then raise highest_addr (u64 (e.base + e.len)) else highest_addr)

-- The second loop: the address of the bitmap (0 for none), memory, and the map that is left.
pub record Placed : Type 0 where
  pub bitmap : ℕ
  pub mem : Memory
  pub entries : List Entry

unfoldable pub place : ℕ → ℕ → List Entry → Memory → Placed
place size hhdm [] m = record { bitmap = 0; mem = m; entries = [] }
place size hhdm (e ∷ es) m =
    let rest = place size hhdm es m in
    if is_usable e && leb size e.len
    then record {
      bitmap = u64 (e.base + hhdm);
      mem = memset m (u64 (e.base + hhdm)) 255 size;
      entries = record e { base = u64 (e.base + size); len = e.len - size } ∷ es;
    }
    else record { bitmap = rest.bitmap; mem = rest.mem; entries = e ∷ rest.entries }

-- `for (j = 0; j < entry->length; j += PAGE_SIZE)`, on `rounds` of fuel.
unfoldable pub clear_entry : ℕ → ℕ → Entry → ℕ → Memory → Memory
clear_entry zero bitmap e j m = m
clear_entry (suc rounds) bitmap e j m =
    let rest =
      clear_entry rounds bitmap e (u64 (j + page_size))
        (bitmap_clear m bitmap (u64 (e.base + j) / page_size)) in
    if ltb j e.len then rest else m

-- The third loop. An entry of `len` bytes takes at most `len / page_size + 1` rounds.
unfoldable pub clear_entries : ℕ → List Entry → Memory → Memory
clear_entries bitmap [] m = m
clear_entries bitmap (e ∷ es) m =
    clear_entries bitmap es
      (if is_usable e then clear_entry (e.len / page_size + 1) bitmap e 0 m else m)

unfoldable pub bitmap_size : ℕ → ℕ
bitmap_size top = align_up (top / 8) page_size

-- The counter of each loop over the entries is a `uint8_t`: with more than 255 entries the first
-- loop never ends. The entries lie in memory that the bitmap does not overlap.
unfoldable pub pmm_init : List Entry → ℕ → Pmm → Outcome Pmm
pmm_init entries offset s =
    let top = highest entries 0 / page_size in
    let placed = place (bitmap_size top) offset entries s.mem in
    if ltb 255 (length entries)
    then spinning
    else if placed.bitmap == 0
    then panicked
    else ok (record s {
      mem = clear_entries placed.bitmap placed.entries placed.mem;
      bitmap = placed.bitmap;
      bitmap_top_index = top;
      hhdm_offset = offset;
    })
