-- ===== src/HashMap/Stages.antt =====
-- Sizes and counts of a table that `addToHashMap` has grown from none. Each growth counts every entry
-- once more, so that the count of a table of one size runs ahead of its entries by a fixed number.
use shellinabox.Base.{ℕ, ◌+◌, ◌*◌, ◌/◌, ◌≤◌, ◌<◌, ◌≡◌, ◌⊎◌, inl, inr, arith}
use shellinabox.HashMap.{grown_size}

-- A table of so many buckets, whose count is ahead of its entries.
abbrev At : ℕ → ℕ → ℕ → ℕ → ℕ → Type 0
At buckets ahead size count total =
    (size ≡ buckets) × (count ≡ total + ahead) × (count ≤ buckets * 8 / 10)

abbrev pub IsStaged : ℕ → ℕ → ℕ → Type 0
IsStaged size count total =
    At 0 0 size count total
    ⊎ At 32 0 size count total
    ⊎ At 64 25 size count total
    ⊎ At 128 51 size count total
    ⊎ At 256 102 size count total
    ⊎ At 512 204 size count total
    ⊎ At 1024 409 size count total
    ⊎ At 2048 819 size count total

-- With so many keys or fewer, a table of the last stage does not grow.
abbrev pub most_keys : ℕ
most_keys = 818

-- A change in count and entries alike that leaves the table below its load.
pub IsStaged-shift :
    (s n t n' t' : ℕ) → IsStaged s n t → n' + t ≡ n + t' → n' ≤ s * 8 / 10 → IsStaged s n' t'
IsStaged-shift s n t n' t' (inl h) d l = inl (omega arith)
IsStaged-shift s n t n' t' (inr (inl h)) d l = inr (inl (omega arith))
IsStaged-shift s n t n' t' (inr (inr (inl h))) d l = inr (inr (inl (omega arith)))
IsStaged-shift s n t n' t' (inr (inr (inr (inl h)))) d l = inr (inr (inr (inl (omega arith))))
IsStaged-shift s n t n' t' (inr (inr (inr (inr (inl h))))) d l =
    inr (inr (inr (inr (inl (omega arith)))))
IsStaged-shift s n t n' t' (inr (inr (inr (inr (inr (inl h)))))) d l =
    inr (inr (inr (inr (inr (inl (omega arith))))))
IsStaged-shift s n t n' t' (inr (inr (inr (inr (inr (inr (inl h))))))) d l =
    inr (inr (inr (inr (inr (inr (inl (omega arith)))))))
IsStaged-shift s n t n' t' (inr (inr (inr (inr (inr (inr (inr h))))))) d l =
    inr (inr (inr (inr (inr (inr (inr (omega arith)))))))

-- A growth, and `x` new entries.
pub IsStaged-grow :
    (s n t x : ℕ)
    → IsStaged s n t
    → t ≤ most_keys
    → s * 8 / 10 < n + 1
    → x ≤ 1
    → IsStaged (grown_size s) (n + t + x) (t + x)
unfolding grown_size
IsStaged-grow s n t x (inl h) f l o = inr (inl (ground arith))
IsStaged-grow s n t x (inr (inl h)) f l o = inr (inr (inl (ground arith)))
IsStaged-grow s n t x (inr (inr (inl h))) f l o = inr (inr (inr (inl (ground arith))))
IsStaged-grow s n t x (inr (inr (inr (inl h)))) f l o = inr (inr (inr (inr (inl (ground arith)))))
IsStaged-grow s n t x (inr (inr (inr (inr (inl h))))) f l o =
    inr (inr (inr (inr (inr (inl (ground arith))))))
IsStaged-grow s n t x (inr (inr (inr (inr (inr (inl h)))))) f l o =
    inr (inr (inr (inr (inr (inr (inl (ground arith)))))))
IsStaged-grow s n t x (inr (inr (inr (inr (inr (inr (inl h))))))) f l o =
    inr (inr (inr (inr (inr (inr (inr (ground arith)))))))
IsStaged-grow s n t x (inr (inr (inr (inr (inr (inr (inr h))))))) f l o = absurd (omega arith)

-- A full table has room in the next one.
pub IsStaged-room :
    (s n t : ℕ)
    → IsStaged s n t
    → t ≤ most_keys
    → s * 8 / 10 < n + 1
    → n + t ≤ grown_size s * 8 / 10
unfolding grown_size
IsStaged-room s n t (inl h) f l = ground arith
IsStaged-room s n t (inr (inl h)) f l = ground arith
IsStaged-room s n t (inr (inr (inl h))) f l = ground arith
IsStaged-room s n t (inr (inr (inr (inl h)))) f l = ground arith
IsStaged-room s n t (inr (inr (inr (inr (inl h))))) f l = ground arith
IsStaged-room s n t (inr (inr (inr (inr (inr (inl h)))))) f l = ground arith
IsStaged-room s n t (inr (inr (inr (inr (inr (inr (inl h))))))) f l = ground arith
IsStaged-room s n t (inr (inr (inr (inr (inr (inr (inr h))))))) f l = absurd (omega arith)

pub IsStaged-bounds : (s n t : ℕ) → IsStaged s n t → (s ≤ 2048) × (t ≤ n) × (n ≤ s * 8 / 10)
IsStaged-bounds s n t h = omega arith
