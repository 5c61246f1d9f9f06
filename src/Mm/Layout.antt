-- ===== src/Mm/Layout.antt =====
-- kernel/mm/virtualPageManager.h: the addresses and sizes that the memory managers share.
use seaweed.Base.{ℕ, ◌+◌, ◌-◌, ◌/◌, bit_or, u64, ◌<<<◌}

abbrev pub kernel_high_vma : ℕ
kernel_high_vma = 0xffffffff80000000

abbrev pub high_vma : ℕ
high_vma = 0xffff800000000000

abbrev pub kpml4_addr : ℕ
kpml4_addr = 0x200000

abbrev pub kpml3_addr : ℕ
kpml3_addr = 0x201000

abbrev pub kpml2_addr_1g : ℕ
kpml2_addr_1g = 0x202000

abbrev pub kpml2_addr_2g : ℕ
kpml2_addr_2g = 0x203000

abbrev pub kpml2_addr_3g : ℕ
kpml2_addr_3g = 0x204000

abbrev pub kpml2_addr_4g : ℕ
kpml2_addr_4g = 0x205000

abbrev pub kpml2_addr_hh : ℕ
kpml2_addr_hh = 0x206000

abbrev pub kpml3_addr_hh : ℕ
kpml3_addr_hh = 0x207000

abbrev pub pagesize : ℕ
pagesize = 0x1000

-- ROUNDUP on 64-bit words: the sum wraps.
abbrev pub roundup : ℕ → ℕ → ℕ
roundup a b = u64 (a + (b - 1)) / b

-- The flags are or-ed in one after the other, as the macro's text has no parentheses.
abbrev pub with_kpage_flags : ℕ → ℕ
with_kpage_flags entry = bit_or (bit_or entry (1 <<< 2)) 0x3
