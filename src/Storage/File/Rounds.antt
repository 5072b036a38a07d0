-- ===== src/Storage/File/Rounds.antt =====
-- What a round of the loop of `read` does: fs/fat16/file.rs of pkg/storage/src.
use operating_system_experim.Prelude.{
  ℕ, zero, suc, ◌+◌, ◌-◌, ◌%◌, ◌^◌, ◌≤◌, ◌<◌, min, ◌≡◌, refl, sym, ap, subst, ◌∙◌, ◌≢◌, none, some,
  List, [], ◌∷◌, ◌++◌, append-nil, append_assoc, arith, length, take, length-append,
}
use operating_system_experim.Storage.Outcome.{ok}
use operating_system_experim.Storage.ShortName.{Text}
use operating_system_experim.Storage.Bpb.{sectors_per_cluster}
use operating_system_experim.Storage.Fat.{Fat16Impl, cluster_to_sector, get_next_cluster}
use operating_system_experim.Storage.File.{
  File, Reading, cluster_size, read_from_cluster, move_to_next_cluster, read_loop,
}
use operating_system_experim.Storage.File.Content.{IsReadable, cluster_bytes, IsChain, content}

-- What a chain says of its first cluster.
pub head_of :
    (fs : Fat16Impl) (D : ℕ → List ℕ) (c : ℕ) (cs : List ℕ)
    → IsChain fs D c cs
    → (c ≢ 0) × IsReadable fs D (cluster_to_sector fs c) (sectors_per_cluster fs.bpb)
head_of fs D c [] (real, _, h) = (real, h)
head_of fs D c (next ∷ cs) ((real, _, h), _) = (real, h)

-- The bytes of the rest of a chain.
abbrev pub rest_of : Fat16Impl → (ℕ → List ℕ) → List ℕ → List ℕ
rest_of fs D [] = []
rest_of fs D (next ∷ cs) = content fs D next cs

pub content-rest :
    (fs : Fat16Impl) (D : ℕ → List ℕ) (c : ℕ) (cs : List ℕ)
    → content fs D c cs ≡ cluster_bytes fs D c ++ rest_of fs D cs
content-rest fs D c [] = sym (append-nil (cluster_bytes fs D c))
content-rest fs D c (next ∷ cs) = refl

-- The end of a call: the bytes `M` are added to those so far, and the offset moves with them.
abbrev pub Gives : {t : Text} → File t → List ℕ → List ℕ → Reading t → Type 0
Gives {t} f bytes M r =
    (f' : File t) × (r ≡ (f', bytes ++ M, ok (length (bytes ++ M))))
    × (f'.offset ≡ f.offset + length M)
    × (f'.entry ≡ f.entry)
    × (f'.handle ≡ f.handle)

module _ {t : Text} where
  -- Nothing is left to read.
  pub Gives-nothing :
      (f : File t) (bytes M : List ℕ) (n : ℕ) (r : Reading t)
      → n ≡ 0
      → r ≡ (f, bytes, ok (length bytes))
      → Gives f bytes (take n M) r
  Gives-nothing f bytes M n r e h =
      subst (λ k. Gives f bytes (take k M) r) (sym e)
        (
          f,
          subst (λ l. r ≡ (f, l, ok (length l))) (sym (append-nil bytes)) h,
          omega arith,
          refl,
          refl,
        )

  -- Some bytes are read, and then more.
  pub Gives-after :
      (f f1 : File t) (bytes more M M' : List ℕ) (r r1 : Reading t)
      → M ≡ more ++ M'
      → f1.offset ≡ f.offset + length more
      → f1.entry ≡ f.entry
      → f1.handle ≡ f.handle
      → r ≡ r1
      → Gives f1 (bytes ++ more) M' r1
      → Gives f bytes M r
  Gives-after f f1 bytes more M M' r r1 split moved entry handle e
        (f', h, offset', entry', handle') =
      (
        f',
        e
            ∙ h
            ∙ ap (λ l. (f', l, ok (length l)))
                (append_assoc bytes more M' ∙ ap (λ l. bytes ++ l) (sym split)),
        ground (arith, length-append more M'),
        entry' ∙ entry,
        handle' ∙ handle,
      )

  -- A round of the loop that copies `more`, in the three ways it can go on.
  module _ (fuel : ℕ) (f : File t) (want : ℕ) (bytes more : List ℕ) (left : length bytes < want)
      (chunk : ℕ)
      (chunk_is : chunk
        ≡ min (want - length bytes) (cluster_size f.handle - f.offset % cluster_size f.handle))
      (got : read_from_cluster f.handle f.current_cluster (f.offset % cluster_size f.handle) chunk
        ≡ ok more)
      (full : length more ≡ chunk) where
    abbrev pub moved_on : File t
    moved_on = record f { offset = f.offset + length more }

    pub round-last :
        want ≤ length (bytes ++ more)
        → read_loop (suc fuel) f want bytes ≡ read_loop fuel moved_on want (bytes ++ more)
    unfolding read_loop
    round-last done = ground arith

    pub round-ends :
        length (bytes ++ more) < want
        → (f.offset + length more) % cluster_size f.handle ≡ 0
        → f.current_cluster ≢ 0
        → get_next_cluster f.handle (f.current_cluster % 2 ^ 16) ≡ ok none
        → read_loop (suc fuel) f want bytes ≡ (moved_on, bytes ++ more, ok (length (bytes ++ more)))
    unfolding read_loop move_to_next_cluster
    round-ends short edge real next = ground arith

    pub round-moves :
        (c : ℕ)
        → length (bytes ++ more) < want
        → (f.offset + length more) % cluster_size f.handle ≡ 0
        → f.current_cluster ≢ 0
        → get_next_cluster f.handle (f.current_cluster % 2 ^ 16) ≡ ok (some c)
        → read_loop (suc fuel) f want bytes
          ≡ read_loop fuel (record moved_on { current_cluster = c }) want (bytes ++ more)
    unfolding read_loop move_to_next_cluster
    round-moves c short edge real next = ground arith

  -- Nothing is left for the loop to do.
  pub round-none :
      (fuel : ℕ) (f : File t) (want : ℕ) (bytes : List ℕ)
      → want ≤ length bytes
      → read_loop fuel f want bytes ≡ (f, bytes, ok (length bytes))
  unfolding read_loop
  round-none zero f want bytes h = ground arith
  round-none (suc fuel) f want bytes h = ground arith
