-- ===== src/Storage/File/Reading.antt =====
-- `Read for File` against the bytes of the file: fs/fat16/file.rs of pkg/storage/src.
use operating_system_experim.Prelude.{
  ℕ, zero, suc, ◌+◌, ◌-◌, ◌*◌, ◌/◌, ◌%◌, ◌≤◌, ◌<◌, min, ◌≡◌, refl, sym, ap, subst, ◌∙◌, ◌≢◌, inl,
  inr, List, [], ◌∷◌, ◌++◌, arith, ◌==◌, ==→eq, ==→ne, Bool-cases, length, take, drop,
  length-append, drop-append_past, drop-drop, take-take, drop-take,
}
use native.Mathlib.Nat.{div-add-mod', div-lt_iff_lt-mul}
use operating_system_experim.Storage.Outcome.{ok}
use operating_system_experim.Storage.ShortName.{Text}
use operating_system_experim.Storage.Bpb.{sectors_per_cluster}
use operating_system_experim.Storage.Fat.{Fat16Impl, cluster_to_sector}
use operating_system_experim.Storage.File.{
  File, cluster_size, follow, ensure_correct_cluster, read_loop, read,
}
use operating_system_experim.Storage.File.Content.{
  IsReadable, cluster_bytes, IsChain, content, length-sectors,
}
use operating_system_experim.Storage.File.Rounds.{Gives, Gives-nothing}
use operating_system_experim.Storage.File.Loop.{read_loop_lem}

div_inside : (o n size : ℕ) → size ≢ 0 → o < n * size → o / size < n
div_inside o n size real h = (div-lt_iff_lt-mul (pos_of real)).1 h
  where
    pos_of : size ≢ 0 → 0 < size
    pos_of r = omega arith

zero_times : (n : ℕ) → 0 * n ≡ 0
zero_times n = omega arith

suc_times : (k n : ℕ) → suc k * n ≡ n + k * n
suc_times k n = ground arith

length-cluster_bytes :
    (fs : Fat16Impl) (D : ℕ → List ℕ) (c : ℕ)
    → IsReadable fs D (cluster_to_sector fs c) (sectors_per_cluster fs.bpb)
    → length (cluster_bytes fs D c) ≡ cluster_size fs
length-cluster_bytes fs D c h =
    length-sectors fs D (sectors_per_cluster fs.bpb) (cluster_to_sector fs c) h

one_times : (n : ℕ) → n ≡ 1 * n
one_times n = omega arith

suc_times_one : (k n : ℕ) → (suc k + 1) * n ≡ n + (k + 1) * n
suc_times_one k n = ground arith

-- The walk of `ensure_correct_cluster` along a chain leaves out whole clusters.
follow-IsChain :
    (fs : Fat16Impl) (D : ℕ → List ℕ) (k c : ℕ) (cs : List ℕ)
    → IsChain fs D c cs
    → k ≤ length cs
    → (c' : ℕ) × (cs' : List ℕ) × (follow fs k c ≡ ok c')
      × IsChain fs D c' cs'
      × (drop (k * cluster_size fs) (content fs D c cs) ≡ content fs D c' cs')
unfolding follow
follow-IsChain fs D zero c cs chain le =
    (c, cs, refl, chain, ap (λ n. drop n (content fs D c cs)) (zero_times (cluster_size fs)))
follow-IsChain fs D (suc k) c [] chain le = absurd (omega arith)
follow-IsChain fs D (suc k) c (next ∷ cs) ((real, link, readable), chain) le =
    let (c', cs', followed, chain', rest) = follow-IsChain fs D k next cs chain (omega arith) in
    let whole : suc k * cluster_size fs ≡ length (cluster_bytes fs D c) + k * cluster_size fs =
      suc_times k (cluster_size fs)
      ∙ ap (λ n. n + k * cluster_size fs) (sym (length-cluster_bytes fs D c readable)) in
    (
      c',
      cs',
      ground arith,
      chain',
      ap (λ n. drop n (cluster_bytes fs D c ++ content fs D next cs)) whole
          ∙ drop-append_past (cluster_bytes fs D c) (content fs D next cs) (k * cluster_size fs)
          ∙ rest,
    )

-- A chain has the bytes of all its clusters.
length-content :
    (fs : Fat16Impl) (D : ℕ → List ℕ) (c : ℕ) (cs : List ℕ)
    → IsChain fs D c cs
    → length (content fs D c cs) ≡ (length cs + 1) * cluster_size fs
length-content fs D c [] (_, _, h) = length-cluster_bytes fs D c h ∙ one_times (cluster_size fs)
length-content fs D c (next ∷ cs) ((_, _, h), chain) =
    length-append (cluster_bytes fs D c) (content fs D next cs)
    ∙ ap (λ n. n + length (content fs D next cs)) (length-cluster_bytes fs D c h)
    ∙ ap (λ n. cluster_size fs + n) (length-content fs D next cs chain)
    ∙ sym (suc_times_one (length cs) (cluster_size fs))

module _ {t : Text} where
  -- `ensure_correct_cluster` goes to the cluster of the offset, also where that is the first one.
  ensure-follow :
      (f : File t) (c : ℕ)
      → cluster_size f.handle ≢ 0
      → follow f.handle (f.offset / cluster_size f.handle) f.entry.cluster ≡ ok c
      → ensure_correct_cluster f ≡ ok (record f { current_cluster = c })
  unfolding ensure_correct_cluster follow
  ensure-follow f c real h = elim (Bool-cases (f.offset / cluster_size f.handle == 0)) [
    | inr later ↦ ground arith
    | inl first ↦
        let same : follow f.handle 0 f.entry.cluster ≡ ok c =
          ap (λ k. follow f.handle k f.entry.cluster)
            (sym (==→eq (f.offset / cluster_size f.handle) 0 first))
          ∙ h in
        ground arith
  ]

  -- `read` where some bytes are left, with the loop.
  read-loop :
      (f f1 : File t) (n : ℕ)
      → f.offset < f.entry.size
      → min n (f.entry.size - f.offset) ≢ 0
      → ensure_correct_cluster f ≡ ok f1
      → read f n
        ≡ read_loop (min n (f.entry.size - f.offset)) f1 (min n (f.entry.size - f.offset)) []
  unfolding read
  read-loop f f1 n left some_left e = ground arith

  read-nothing :
      (f : File t) (n : ℕ) → min n (f.entry.size - f.offset) ≡ 0 → read f n ≡ (f, [], ok 0)
  unfolding read
  read-nothing f n e = ground arith

  read-clipped :
      (D : ℕ → List ℕ) (f : File t) (n : ℕ) (cs : List ℕ)
      → IsChain f.handle D f.entry.cluster cs
      → cluster_size f.handle ≢ 0
      → f.entry.size ≤ length (content f.handle D f.entry.cluster cs)
      → Gives f []
          (take
            (min n (f.entry.size - f.offset))
            (drop f.offset (content f.handle D f.entry.cluster cs)))
          (read f n)
  read-clipped D f n cs chain real fits =
      let want = min n (f.entry.size - f.offset) in
      let C = content f.handle D f.entry.cluster cs in
      let size = cluster_size f.handle in
      elim (Bool-cases (want == 0)) [
        | inl e ↦
            Gives-nothing f [] (drop f.offset C) want _ (==→eq want 0 e)
              (read-nothing f n (==→eq want 0 e))
        | inr e ↦
            let left : f.offset < f.entry.size = ground arith in
            let room : f.offset < (length cs + 1) * size =
              ground (arith, length-content f.handle D f.entry.cluster cs chain) in
            let inside : f.offset / size < length cs + 1 =
              div_inside f.offset (length cs + 1) size real room in
            let (c, cs', followed, chain', rest) =
              follow-IsChain f.handle D (f.offset / size) f.entry.cluster cs chain (omega arith) in
            let f1 = record f { current_cluster = c } in
            let loop = read_loop_lem D want want f1 [] cs' chain' real (omega arith) in
            let same : take (want - 0) (drop (f.offset % size) (content f.handle D c cs'))
                ≡ take want (drop f.offset C) =
              ap (λ k. take k (drop (f.offset % size) (content f.handle D c cs'))) (omega arith)
              ∙ ap (λ l. take want (drop (f.offset % size) l)) (sym rest)
              ∙ ap (take want) (drop-drop (f.offset % size) (f.offset / size * size) C)
              ∙ ap (λ k. take want (drop k C)) (div-add-mod' f.offset size) in
            subst (λ r. Gives f [] (take want (drop f.offset C)) r)
              (sym (read-loop f f1 n left (==→ne want 0 e) (ensure-follow f c real followed)))
              (subst (λ M. Gives f [] M (read_loop want f1 want [])) same loop)
      ]

  -- Reading a file whose entry starts a chain that can be read and is at least as long as the file:
  -- `read` into a buffer of `n` bytes always comes to an end and copies just the bytes of the file
  -- from the offset on, at most `n` and not past the size of the file; it answers their number, moves
  -- the offset behind them and keeps the entry and the volume.
  pub read-content :
      (D : ℕ → List ℕ) (f : File t) (n : ℕ) (cs : List ℕ)
      → IsChain f.handle D f.entry.cluster cs
      → cluster_size f.handle ≢ 0
      → f.entry.size ≤ length (content f.handle D f.entry.cluster cs)
      → Gives f []
          (take n (drop f.offset (take f.entry.size (content f.handle D f.entry.cluster cs))))
          (read f n)
  read-content D f n cs chain real fits =
      let C = content f.handle D f.entry.cluster cs in
      subst (λ M. Gives f [] M (read f n))
        (sym (
          ap (take n) (drop-take f.offset f.entry.size C)
          ∙ take-take n (f.entry.size - f.offset) (drop f.offset C)))
        (read-clipped D f n cs chain real fits)
