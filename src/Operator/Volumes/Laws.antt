-- ===== src/Operator/Volumes/Laws.antt =====
-- On the size of a volume in uservolume.go.
use kubecp.Common.{ℕ, ◌≤◌, ◌<◌, ◌/◌, ◌≡◌, ℤ, pos, negsuc, arith}
use kubecp.Operator.Volumes.{storage_gb}

-- Whatever the quantity is, the size in GiB is at least 1 and a positive int32.
storage_gb-bounds : (v : ℤ) → (1 ≤ storage_gb v) × (storage_gb v < 2147483648)
unfolding storage_gb
storage_gb-bounds (pos n) = ground arith
storage_gb-bounds (negsuc n) = ground arith

-- A quantity from 1 GiB up to 2^31 GiB is rounded down to whole GiB.
storage_gb-exact :
    (n : ℕ) → 1073741824 ≤ n → n < 2305843009213693952 → storage_gb (pos n) ≡ n / 1073741824
unfolding storage_gb
storage_gb-exact n low high = ground arith
