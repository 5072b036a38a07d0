-- ===== src/Memory/Frames/Ownership.antt =====
-- Who owns a frame over a history of requests: pkg/kernel/src/memory/frames.rs.
use operating_system_experim.Prelude.{
  ℕ, zero, suc, ◌+◌, ◌≡◌, refl, sym, ap, subst, ◌∙◌, ◌≢◌, Option, none, some, List, [], ◌∷◌, ◌++◌,
  append_assoc, arith, length, take, drop, length-append, All, All-append, Distinct,
}
use operating_system_experim.Memory.Frames.{
  BootInfoFrameAllocator, MemoryRegion, allocate_frame, deallocate_frame, create_frame_iter, init,
}

All-split : (P : ℕ → Type 0) (xs ys : List ℕ) → All P (xs ++ ys) → All P xs × All P ys
All-split P [] ys h = (tt, h)
All-split P (x ∷ xs) ys (here, h) = let (front, back) = All-split P xs ys h in ((here, front), back)

-- A member of a list without repetition can stand anywhere in it.
Distinct-to_front : (f : ℕ) (xs ys : List ℕ) → Distinct (xs ++ f ∷ ys) → Distinct (f ∷ (xs ++ ys))
Distinct-to_front f [] ys h = h
Distinct-to_front f (x ∷ xs) ys (apart, h) =
    let (front, (here, back)) = All-split (λ y. y ≢ x) xs (f ∷ ys) apart in
    let (others, rest) = Distinct-to_front f xs ys h in
    ((λ e. here (sym e), others), (All-append (λ y. y ≢ x) xs ys front back, rest))

Distinct-from_front : (f : ℕ) (xs ys : List ℕ) → Distinct (f ∷ (xs ++ ys)) → Distinct (xs ++ f ∷ ys)
Distinct-from_front f [] ys h = h
Distinct-from_front f (x ∷ xs) ys ((here, others), (apart, h)) =
    let (front, back) = All-split (λ y. y ≢ x) xs ys apart in
    (
      All-append (λ y. y ≢ x) xs (f ∷ ys) front ((λ e. here (sym e)), back),
      Distinct-from_front f xs ys (others, h),
    )

-- The allocator with the frames that it has given out.
pub record Owner : Type 0 where
  pub allocator : BootInfoFrameAllocator
  pub held : List ℕ

pub data Request : Type 0 where
  allocate : Request
  -- the frame is held, behind as many others
  deallocate : ℕ → Request

abbrev give : Owner → Option ℕ × BootInfoFrameAllocator → Owner
give o (none, a) = record o { allocator = a }
give o (some frame, a) = record { allocator = a; held = frame ∷ o.held }

abbrev take_back : Owner → List ℕ → List ℕ → Owner
take_back o front [] = o
take_back o front (frame ∷ back) = record {
  allocator = deallocate_frame o.allocator frame;
  held = front ++ back;
}

pub step : Owner → Request → Owner
step o allocate = give o (allocate_frame o.allocator)
step o (deallocate n) = take_back o (take n o.held) (drop n o.held)

pub run : Owner → List Request → Owner
run o [] = o
run o (r ∷ rs) = run (step o r) rs

abbrev pub all_frames : Owner → List ℕ
all_frames o = o.held ++ (o.allocator.recycled ++ o.allocator.frames)

-- No frame is held twice, or held and free; none is lost; and `used` counts the frames of the memory
-- map that have been given out at some time.
pub record Inv (total : ℕ) (o : Owner) : Type 0 where
  pub distinct : Distinct (all_frames o)
  pub conserved : length (all_frames o) ≡ total
  pub counted : o.allocator.used + length o.allocator.frames ≡ total

allocate-Inv :
    (total size used : ℕ) (held recycled frames : List ℕ)
    → let o : Owner = record {
      allocator = record { size = size; used = used; frames = frames; recycled = recycled };
      held = held;
    } in
      Inv total o → Inv total (step o allocate)
unfolding step allocate_frame
allocate-Inv total size used held [] [] v = v
allocate-Inv total size used held [] (f ∷ frames) v = record {
  distinct = Distinct-to_front f held frames v.distinct;
  conserved =
      omega (arith, v.conserved, length-append held (f ∷ frames), length-append held frames);
  counted = omega (arith, v.counted);
}
allocate-Inv total size used held (f ∷ recycled) frames v = record {
  distinct = Distinct-to_front f held (recycled ++ frames) v.distinct;
  conserved = omega (
    arith,
    v.conserved,
    length-append held (f ∷ (recycled ++ frames)),
    length-append held (recycled ++ frames),
  );
  counted = v.counted;
}

deallocate-Inv :
    (total : ℕ) (o : Owner) (front back : List ℕ)
    → front ++ back ≡ o.held
    → Inv total o
    → Inv total (take_back o front back)
unfolding deallocate_frame
deallocate-Inv total o front [] e v = v
deallocate-Inv total o front (f ∷ back) e v =
    let free = o.allocator.recycled ++ o.allocator.frames in
    let all_same : front ++ (f ∷ (back ++ free)) ≡ all_frames o =
      sym (append_assoc front (f ∷ back) free) ∙ ap (λ l. l ++ free) e in
    let (apart, others) =
      Distinct-to_front f front (back ++ free) (subst Distinct (sym all_same) v.distinct) in
    let assoc = sym (append_assoc front back free) in
    record {
      distinct =
          Distinct-from_front f (front ++ back) free
            (subst (All (λ y. y ≢ f)) assoc apart, subst Distinct assoc others);
      conserved = omega (
        arith,
        length-append (front ++ back) (f ∷ free),
        length-append front back,
        length-append front (f ∷ (back ++ free)),
        length-append back free,
        ap length all_same,
        v.conserved,
      );
      counted = v.counted;
    }

take-drop_whole : (n : ℕ) (xs : List ℕ) → take n xs ++ drop n xs ≡ xs
take-drop_whole zero xs = refl
take-drop_whole (suc n) [] = refl
take-drop_whole (suc n) (x ∷ xs) = ap (λ l. x ∷ l) (take-drop_whole n xs)

step-Inv : (total : ℕ) (o : Owner) (r : Request) → Inv total o → Inv total (step o r)
unfolding step
step-Inv total o allocate v =
    allocate-Inv total o.allocator.size o.allocator.used o.held o.allocator.recycled
      o.allocator.frames v
step-Inv total o (deallocate n) v =
    deallocate-Inv total o (take n o.held) (drop n o.held) (take-drop_whole n o.held) v

run-Inv_from : (total : ℕ) (o : Owner) (rs : List Request) → Inv total o → Inv total (run o rs)
unfolding run
run-Inv_from total o [] v = v
run-Inv_from total o (r ∷ rs) v = run-Inv_from total (step o r) rs (step-Inv total o r v)

-- From the allocator that `init` makes of a memory map whose frames are distinct, after any history
-- of allocations and of deallocations of frames that are held: no frame is held twice, or held and
-- free, none is lost, and `used` and the frames of the map that have not been given out yet make up
-- the frames of the map.
pub frames-Inv :
    (memory_map : List MemoryRegion) (size : ℕ) (rs : List Request)
    → Distinct (create_frame_iter memory_map)
    → Inv
        (length (create_frame_iter memory_map))
        (run (record { allocator = init memory_map size; held = [] }) rs)
unfolding init
frames-Inv memory_map size rs apart =
    run-Inv_from (length (create_frame_iter memory_map)) _ rs
      (record { distinct = apart; conserved = refl; counted = omega arith })
