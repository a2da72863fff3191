-- ===== src/Transport/Blocks.antt =====
-- Runs of blocks as bytes: their length, how they join, and what changes when a block is copied
-- over one of them.
use mathlib.Core.List.{append_assoc}
use native.Mathlib.Nat.{suc-mul, zero-mul, add-zero, add-suc, suc-add, zero-add}
use temporal_nbd.Prelude.{
  ℕ, zero, suc, ◌+◌, ◌-◌, ◌*◌, ◌≤◌, ◌<◌, ◌≡◌, refl, ◌∙◌, sym, ap, ap₂, subst₂, ◌++◌, arith, length,
  length-append, take, drop, take_append, drop_append, drop-drop,
}
use temporal_nbd.Transport.{Bytes, Volume, store, blocks}

abbrev pub IsUniform : ℕ → Volume → Type 0
IsUniform size v = (lba : ℕ) → length (v lba) ≡ size

pub length-blocks :
    {size : ℕ} (v : Volume) (start n : ℕ) → IsUniform size v → length (blocks v start n) ≡ n * size
length-blocks {size} v start zero u = sym (zero-mul size)
length-blocks {size} v start (suc n) u =
    length-append (v start) (blocks v (suc start) n)
    ∙ omega (arith, u start, length-blocks v (suc start) n u, suc-mul n size)

pub blocks_ext :
    (u v : Volume) (start n : ℕ)
    → ((j : ℕ) → start ≤ j → j < start + n → u j ≡ v j)
    → blocks u start n ≡ blocks v start n
blocks_ext u v start zero h = refl
blocks_ext u v start (suc n) h =
    ap₂ ◌++◌ (h start (omega arith) (omega arith))
      (blocks_ext u v (suc start) n (λ j p q. h j (omega arith) (omega arith)))

pub blocks-append :
    (v : Volume) (start m n : ℕ)
    → blocks v start (m + n) ≡ blocks v start m ++ blocks v (start + m) n
blocks-append v start zero n = rw (zero-add, add-zero)
blocks-append v start (suc m) n =
    rw (suc-add, add-suc, append_assoc)
      (ap (◌++◌ (v start)) (blocks-append v (suc start) m n ∙ rw suc-add))

-- `output[offset..offset + chunk.len()].copy_from_slice(chunk)`, for an offset in range.
abbrev pub copy_into : Bytes → ℕ → Bytes → Bytes
copy_into output offset chunk = take offset output ++ (chunk ++ drop (offset + length chunk) output)

pub copy_into_append :
    (front old rest chunk : Bytes) {offset : ℕ}
    → offset ≡ length front
    → length old ≡ length chunk
    → copy_into (front ++ (old ++ rest)) offset chunk ≡ front ++ (chunk ++ rest)
copy_into_append front old rest chunk {offset} h k = rw (
  ← drop-drop offset (length chunk),
  take_append front (old ++ rest) h,
  drop_append front (old ++ rest) h,
  drop_append old rest (sym k),
)

blocks-store_at :
    (v : Volume) (start m r : ℕ) (block : Bytes)
    → blocks (store (start + m) block v) start (m + suc r)
      ≡ blocks v start m ++ (block ++ blocks v (suc (start + m)) r)
blocks-store_at v start m r block =
    let w = store (start + m) block v in
    blocks-append w start m (suc r)
    ∙ ap₂ ◌++◌ (blocks_ext w v start m (λ j p q. ground arith))
        (ap₂ ◌++◌ (ground arith) (blocks_ext w v (suc (start + m)) r (λ j p q. ground arith)))

copy_into_at :
    {size : ℕ} (v : Volume) (start m r : ℕ) (block : Bytes)
    → IsUniform size v
    → length block ≡ size
    → copy_into (blocks v start (m + suc r)) (m * size) block
      ≡ blocks (store (start + m) block v) start (m + suc r)
copy_into_at {size} v start m r block u l =
    ap (λ xs. copy_into xs (m * size) block) (blocks-append v start m (suc r))
    ∙ copy_into_append (blocks v start m) (v (start + m)) (blocks v (suc (start + m)) r) block
        (sym (length-blocks v start m u)) (u (start + m) ∙ sym l)
    ∙ sym (blocks-store_at v start m r block)

-- Copying a block over its place in a run of blocks gives the run after a write of the block.
pub copy_into-blocks :
    {size : ℕ} (v : Volume) (start n lba : ℕ) (block : Bytes)
    → IsUniform size v
    → length block ≡ size
    → start ≤ lba
    → lba < start + n
    → copy_into (blocks v start n) ((lba - start) * size) block ≡ blocks (store lba block v) start n
copy_into-blocks {size} v start n lba block u l h k =
    let m : ℕ = lba - start in
    let r : ℕ = n - suc m in
    let count : n ≡ m + suc r = omega arith in
    let here : start + m ≡ lba = omega arith in
    subst₂ (λ i j. copy_into (blocks v start i) (m * size) block ≡ blocks (store j block v) start i)
      (sym count) here (copy_into_at v start m r block u l)
