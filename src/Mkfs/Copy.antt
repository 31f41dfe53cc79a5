-- ===== src/Mkfs/Copy.antt =====
-- The loop of `oneFile`: it stores the bytes of a file along a chain of blocks, and nothing else.
use p12_group.Base.{
  ℕ, zero, suc, ◌+◌, ◌-◌, ◌*◌, ◌/◌, ◌%◌, ◌^◌, ◌<◌, ◌≤◌, ◌≡◌, ◌≢◌, ◌⊎◌, inl, inr, ◌==◌, ltb, Bool,
  true, ◌||◌, false, List, [], ◌∷◌, ◌++◌, length, length-append, get_or, arith, refl, ap, ◌∙◌, sym,
  subst, has, update, update_self, update_ne, Bool-cases, Option, some,
}
use p12_group.Fat.{rem_next_avail}
use p12_group.Fat.Chains.{Chain-update}
use p12_group.Fat.Alloc.{FreeList, rem_next_avail_some}
use p12_group.Files.{block_after}
use p12_group.Block.Memcpy.{get_or-append}
use p12_group.Heap.{◌>>=◌}
use p12_group.Mkfs.{
  Image, Place, get_block, make_room, store, put, to_ptr, advance, after_read, copy,
}
use p12_group.Mkfs.Store.{store-inside, store-before, store-behind}

-- What `read` does with a file that can be read: it delivers some of the bytes that are left, at most as
-- many as are asked for, and none only at the end.
pub record Reads {F : Type 0} (read : F → ℕ → Option (List ℕ × F)) (rest : F → List ℕ)
    : Type 0 where
  pub some_bytes :
      (f : F) (n : ℕ)
      → 0 < n
      → (bs : List ℕ) × (f' : F) × (read f n ≡ some (bs, f'))
        × (length bs ≤ n)
        × (rest f ≡ bs ++ rest f')
        × (bs ≡ [] → rest f ≡ [])

-- The byte p of the chain that starts in block b, the header counted.
abbrev pub place : (ℕ → ℕ) → ℕ → ℕ → ℕ
place fat b p = block_after (p / 512) fat b * 512 + p % 512

pub place_first : (fat : ℕ → ℕ) (b p : ℕ) → p < 512 → place fat b p ≡ b * 512 + p
place_first fat b p l =
    let q : p / 512 ≡ 0 = omega arith in let u : p % 512 ≡ p = omega arith in rw (q, u) refl

place_next : (fat : ℕ → ℕ) (b i : ℕ) → place fat b (512 + i) ≡ place fat (fat b) i
place_next fat b i =
    let q : (512 + i) / 512 ≡ suc (i / 512) = omega arith in
    let u : (512 + i) % 512 ≡ i % 512 = omega arith in rw (q, u) refl

abbrev pub Small : List ℕ → Type 0
Small xs = (b : ℕ) → has b xs ≡ true → b < 2 ^ 23

-- A block among xs, or the end of a chain.
abbrev pub Ahead : ℕ → List ℕ → Type 0
Ahead b xs = (has b xs ≡ true) ⊎ (b ≡ 0)

cons-Ahead : (b x : ℕ) (xs : List ℕ) → Ahead b xs → Ahead b (x ∷ xs)
cons-Ahead b x xs (inl h) = inl (ground arith)
cons-Ahead b x xs (inr h) = inr h

-- What the bytes bs, stored from offset `off` of the last block `cur` of a chain on, leave of an image
-- with the free blocks xs.
pub record Copied (m : Image) (xs : List ℕ) (cur off : ℕ) (bs : List ℕ) (m' : Image) : Type 0 where
  pub left_free : List ℕ
  pub free : FreeList m'.fs left_free
  pub among : (b : ℕ) → has b left_free ≡ true → has b xs ≡ true
  pub stored : (i : ℕ) → i < length bs → m'.bytes (place m'.fs.fat cur (off + i)) ≡ get_or bs i 0
  pub chain_kept : (b : ℕ) → has b xs ≡ false → b ≢ cur → m'.fs.fat b ≡ m.fs.fat b
  pub bytes_kept :
      (a : ℕ)
      → has (a / 512) xs ≡ false
      → (a / 512 ≢ cur) ⊎ (a % 512 < off)
      → m'.bytes a ≡ m.bytes a
  pub ahead : (i : ℕ) → Ahead (block_after (suc i) m'.fs.fat cur) xs
  pub placed :
      (i : ℕ) → i < length bs → has (block_after ((off + i) / 512) m'.fs.fat cur) (cur ∷ xs) ≡ true

pub block_after_end : (i : ℕ) (fat : ℕ → ℕ) → fat 0 ≡ 0 → block_after i fat 0 ≡ 0
block_after_end zero fat z = refl
block_after_end (suc i) fat z = rw z (block_after_end i fat z)

-- Where a loop goes on from, and with which blocks.
pub record Ready (m : Image) (xs : List ℕ) (cur : ℕ) : Type 0 where
  pub list : FreeList m.fs xs
  pub fresh : has cur xs ≡ false
  pub nonzero : cur ≢ 0
  pub low : cur < 2 ^ 23
  pub small : Small xs
  pub last : m.fs.fat cur ≡ 0
  pub end : m.fs.fat 0 ≡ 0

nothing-Copied : (m : Image) (xs : List ℕ) (cur off : ℕ) → Ready m xs cur → Copied m xs cur off [] m
nothing-Copied m xs cur off r = record {
  left_free = xs;
  free = r.list;
  among = λ b h. h;
  stored = λ i l. absurd (omega arith);
  chain_kept = λ b h n. refl;
  bytes_kept = λ a h n. refl;
  ahead = λ i. inr (ap (block_after i m.fs.fat) r.last ∙ block_after_end i m.fs.fat r.end);
  placed = λ i l. absurd (omega arith);
}

-- One store inside the block, and the rest behind it.
module _ (m : Image) (xs : List ℕ) (cur off : ℕ) (r : Ready m xs cur) (c : List ℕ)
    (fits : off + length c ≤ 512) where
  abbrev changed : Image
  changed = put (to_ptr cur off) c m

  at_ptr : to_ptr cur off ≡ cur * 512 + off
  at_ptr = omega (arith, r.low)

  kept_there : (a : ℕ) → (a / 512 ≢ cur) ⊎ (a % 512 < off) → changed.bytes a ≡ m.bytes a
  kept_there a n = rw at_ptr (elim (Bool-cases (ltb a (cur * 512 + off))) [
    | inl u ↦ store-before (cur * 512 + off) c m.bytes a (ground arith)
    | inr u ↦
        let v : cur * 512 + off ≤ a = ground arith in
        store-behind (cur * 512 + off) c m.bytes a
          (elim n [ inl p ↦ omega arith | inr p ↦ omega arith ])
  ])

  stored-Copied :
      (bs : List ℕ) (m' : Image)
      → 0 < length c
      → Copied changed xs cur (off + length c) bs m'
      → Copied m xs cur off (c ++ bs) m'
  stored-Copied bs m' z k = record {
    left_free = k.left_free;
    free = k.free;
    among = k.among;
    stored = λ i l. get_data i l;
    chain_kept = k.chain_kept;
    bytes_kept = λ a h n. k.bytes_kept a h (later a n) ∙ kept_there a n;
    ahead = k.ahead;
    placed = λ i l. in_chain i l;
  }
    where
      in_chain :
          (i : ℕ)
          → i < length (c ++ bs)
          → has (block_after ((off + i) / 512) m'.fs.fat cur) (cur ∷ xs) ≡ true
      in_chain i l = elim (Bool-cases (ltb i (length c))) [
        | inl u ↦
            let v : i < length c = ground arith in
            let q : (off + i) / 512 ≡ 0 = omega arith in rw q (ground arith)
        | inr u ↦
            let at : off + length c + (i - length c) ≡ off + i = ground arith in
            subst (λ t. has (block_after (t / 512) m'.fs.fat cur) (cur ∷ xs) ≡ true) at
              (k.placed (i - length c) (ground (arith, length-append c bs)))
      ]

      later :
          (a : ℕ) → (a / 512 ≢ cur) ⊎ (a % 512 < off) → (a / 512 ≢ cur) ⊎ (a % 512 < off + length c)
      later a (inl p) = inl p
      later a (inr p) = inr (omega arith)

      early : (i : ℕ) → i < length c → m'.bytes (place m'.fs.fat cur (off + i)) ≡ get_or c i 0
      early i l =
          let q : cur * 512 + (off + i) ≡ cur * 512 + off + i = omega arith in
          let d : (cur * 512 + (off + i)) / 512 ≡ cur = omega arith in
          ap m'.bytes (place_first m'.fs.fat cur (off + i) (omega arith))
          ∙ k.bytes_kept (cur * 512 + (off + i)) (ap (λ b. has b xs) d ∙ r.fresh)
              (inr (omega arith))
          ∙ ap (store (to_ptr cur off) c m.bytes) q
          ∙ ap (λ t. store t c m.bytes (cur * 512 + off + i)) at_ptr
          ∙ store-inside (cur * 512 + off) c m.bytes i l

      get_data :
          (i : ℕ)
          → i < length (c ++ bs)
          → m'.bytes (place m'.fs.fat cur (off + i)) ≡ get_or (c ++ bs) i 0
      get_data i l = sym (
          get_or-append c bs i ∙ elim (Bool-cases (ltb i (length c))) [
            | inl u ↦ rw u (sym (early i (ground arith)))
            | inr u ↦
                let at : off + length c + (i - length c) ≡ off + i = ground arith in
                rw u (
                  sym (
                    ap (λ t. m'.bytes (place m'.fs.fat cur t)) (sym at)
                    ∙ k.stored (i - length c) (ground (arith, length-append c bs))))
          ])

  changed-Ready : Ready changed xs cur
  changed-Ready = record {
    list = r.list;
    fresh = r.fresh;
    nonzero = r.nonzero;
    low = r.low;
    small = r.small;
    last = r.last;
    end = r.end;
  }

or_true : (a b : Bool) → b ≡ true → (a || b) ≡ true
or_true true b e = refl
or_true false b e = e

pub get_block-some :
    (m : Image) (x : ℕ) (xs : List ℕ)
    → FreeList m.fs (x ∷ xs)
    → get_block m ≡ some (x, record m { fs = (rem_next_avail m.fs).1 })
unfolding get_block rem_next_avail
get_block-some m x xs f = ground (arith, f.0)

-- The next block x of the list is linked behind cur.
module _ (m : Image) (x : ℕ) (xs : List ℕ) (cur : ℕ) (r : Ready m (x ∷ xs) cur) where
  abbrev extended : Image
  extended = record m {
    fs = record (rem_next_avail m.fs).1 { fat = update (rem_next_avail m.fs).1.fat cur x };
  }

  extended-Ready : Ready extended xs x
  extended-Ready =
      let (p, rest, own, other) = rem_next_avail_some m.fs x xs r.list in
      let n : x ≢ cur = ground (arith, r.fresh) in
      record {
        list = (
          Chain-update (rem_next_avail m.fs).1.fat cur x _ xs (ground (arith, r.fresh)) rest.0,
          rest.1,
        );
        fresh = r.list.1.0;
        nonzero = own.1;
        low = r.small x (ground arith);
        small = λ b h. r.small b (ground arith);
        last = update_ne (rem_next_avail m.fs).1.fat cur x x n ∙ own.2;
        end =
            update_ne (rem_next_avail m.fs).1.fat cur 0 x (λ e. r.nonzero (sym e))
            ∙ other 0 (λ e. own.1 (sym e))
            ∙ r.end;
      }

  make_room_full :
      (p : Place)
      → p.current_block ≡ cur
      → p.left_in_block ≡ 0
      → make_room p m
        ≡ some (record { current_block = x; left_in_block = 512; block_offset = 0 }, extended)
  unfolding make_room
  make_room_full p e l = rw (l, get_block-some m x xs r.list, e) refl

  linked : (bs : List ℕ) (m' : Image) → Copied extended xs x 0 bs m' → m'.fs.fat cur ≡ x
  linked bs m' k =
      k.chain_kept cur (ground (arith, r.fresh)) (ground (arith, r.fresh))
      ∙ update_self (rem_next_avail m.fs).1.fat cur x

  Ahead-linked :
      (bs : List ℕ) (m' : Image)
      → Copied extended xs x 0 bs m'
      → (i : ℕ) → Ahead (block_after i m'.fs.fat x) (x ∷ xs)
  Ahead-linked bs m' k zero = inl (ground arith)
  Ahead-linked bs m' k (suc i) = cons-Ahead (block_after (suc i) m'.fs.fat x) x xs (k.ahead i)

  extended-Copied :
      (bs : List ℕ) (m' : Image) → Copied extended xs x 0 bs m' → Copied m (x ∷ xs) cur 512 bs m'
  extended-Copied bs m' k =
      let (p, rest, own, other) = rem_next_avail_some m.fs x xs r.list in
      record {
        left_free = k.left_free;
        free = k.free;
        among = λ b h. ground (arith, k.among b h);
        stored = λ i l.
            ap m'.bytes
              (place_next m'.fs.fat cur i ∙ ap (λ t. place m'.fs.fat t i) (linked bs m' k))
            ∙ ap (λ t. m'.bytes (place m'.fs.fat x t)) (let z : i ≡ 0 + i = omega arith in z)
            ∙ k.stored i l;
        chain_kept = λ b h n.
            k.chain_kept b (ground arith) (ground arith)
            ∙ update_ne (rem_next_avail m.fs).1.fat cur b x n
            ∙ other b (ground arith);
        bytes_kept = λ a h n. k.bytes_kept a (ground arith) (inl (ground arith));
        ahead = λ i.
            subst (λ t. Ahead (block_after i m'.fs.fat t) (x ∷ xs)) (sym (linked bs m' k))
              (Ahead-linked bs m' k i);
        placed = λ i l.
            let q : (512 + i) / 512 ≡ suc (i / 512) = omega arith in
            let z : i ≡ 0 + i = omega arith in
            let at : block_after ((512 + i) / 512) m'.fs.fat cur
                ≡ block_after ((0 + i) / 512) m'.fs.fat x =
              ap (λ t. block_after t m'.fs.fat cur) q
              ∙ ap (block_after (i / 512) m'.fs.fat) (linked bs m' k)
              ∙ ap (λ t. block_after (t / 512) m'.fs.fat x) z in
            or_true (block_after ((512 + i) / 512) m'.fs.fat cur == cur)
              (has (block_after ((512 + i) / 512) m'.fs.fat cur) (x ∷ xs))
              (ap (λ b. has b (x ∷ xs)) at ∙ k.placed i l);
      }

module _ {F : Type 0} (read : F → ℕ → Option (List ℕ × F)) (rest : F → List ℕ)
    (reads : Reads read rest) where
  -- The loop ends with the bytes of the rest stored.
  abbrev pub Ends : ℕ → Place → ℕ → F → Image → List ℕ → Type 0
  Ends fuel p total f m xs =
      (m' : Image) × (copy read fuel p total f m ≡ some ((total + length (rest f)) % 2 ^ 32, m'))
      × Copied m xs p.current_block p.block_offset (rest f) m'

  abbrev Turns : ℕ → Place → ℕ → F → Image → List ℕ → Option (List ℕ × F) → Type 0
  Turns fuel p total f m xs r =
      (m' : Image) × ((r >>= after_read read (copy read fuel) p total m)
        ≡ some ((total + length (rest f)) % 2 ^ 32, m'))
      × Copied m xs p.current_block p.block_offset (rest f) m'

  abbrev Again : ℕ → List ℕ → Type 0
  Again fuel xs =
      (q : Place) (t : ℕ) (g : F) (m : Image)
      → Ready m xs q.current_block
      → t < 2 ^ 32
      → q.block_offset + q.left_in_block ≡ 512
      → length (rest g) < q.left_in_block + 512 * length xs
      → length (rest g) < fuel
      → Ends fuel q t g m xs

  after_read-Turns :
      (fuel : ℕ) (p : Place) (total : ℕ) (f : F) (m : Image) (xs : List ℕ) (c : List ℕ) (g : F)
      → Ready m xs p.current_block
      → total < 2 ^ 32
      → p.block_offset + p.left_in_block ≡ 512
      → Again fuel xs
      → length (rest f) < p.left_in_block + 512 * length xs
      → length (rest f) ≤ fuel
      → length c ≤ p.left_in_block
      → rest f ≡ c ++ rest g
      → (c ≡ [] → rest f ≡ [])
      → Turns fuel p total f m xs (some (c, g))
  unfolding after_read
  after_read-Turns fuel p total f m xs [] g r t e again l u short split stop =
      let n : length (rest f) ≡ 0 = ap length (stop refl) in
      (
        m,
        ap (λ k. some (k, m)) (omega (arith, n)),
        subst (λ bs. Copied m xs p.current_block p.block_offset bs m) (sym (stop refl))
            (nothing-Copied m xs p.current_block p.block_offset r),
      )
  after_read-Turns fuel p total f m xs (b ∷ bs) g r t e again l u short split stop =
      let c = b ∷ bs in
      let fits : p.block_offset + length c ≤ 512 = omega arith in
      let n : length (rest f) ≡ length c + length (rest g) =
        ap length split ∙ length-append c (rest g) in
      let (m', run, k) =
        again (advance p (length c)) ((total + length c) % 2 ^ 32) g
          (changed m xs p.current_block p.block_offset r c fits)
          (changed-Ready m xs p.current_block p.block_offset r c fits) (omega arith) (omega arith)
          (omega (arith, n)) (omega (arith, n)) in
      (
        m',
        run ∙ ap (λ j. some (j, m')) (omega (arith, n)),
        subst (λ d. Copied m xs p.current_block p.block_offset d m') (sym split)
            (stored-Copied m xs p.current_block p.block_offset r c fits (rest g) m' (omega arith)
              k),
      )

  turn :
      (fuel : ℕ) (p : Place) (total : ℕ) (f : F) (m : Image) (xs : List ℕ)
      → Ready m xs p.current_block
      → total < 2 ^ 32
      → 0 < p.left_in_block
      → p.block_offset + p.left_in_block ≡ 512
      → Again fuel xs
      → length (rest f) < p.left_in_block + 512 * length xs
      → length (rest f) ≤ fuel
      → Turns fuel p total f m xs (read f p.left_in_block)
  turn fuel p total f m xs r t z e again l u =
      let (c, g, run, short, split, stop) = reads.some_bytes f p.left_in_block z in
      subst (Turns fuel p total f m xs) (sym run)
        (after_read-Turns fuel p total f m xs c g r t e again l u short split stop)

  copy_turn :
      (fuel : ℕ) (p q : Place) (total : ℕ) (f : F) (m m1 : Image)
      → make_room p m ≡ some (q, m1)
      → copy read (suc fuel) p total f m
        ≡ (read f q.left_in_block >>= after_read read (copy read fuel) q total m1)
  unfolding copy
  copy_turn fuel p q total f m m1 e = rw e refl

  full_block :
      (fuel : ℕ) (x : ℕ) (xs : List ℕ) (p : Place) (total : ℕ) (f : F) (m : Image)
      → Ready m (x ∷ xs) p.current_block
      → total < 2 ^ 32
      → p.left_in_block ≡ 0
      → p.block_offset ≡ 512
      → Again fuel xs
      → length (rest f) < 512 + 512 * length xs
      → length (rest f) ≤ fuel
      → Ends (suc fuel) p total f m (x ∷ xs)
  full_block fuel x xs p total f m r t z e again l u =
      let cur = p.current_block in
      let q : Place = record { current_block = x; left_in_block = 512; block_offset = 0 } in
      let m1 = extended m x xs cur r in
      let (m', run, k) =
        turn fuel q total f m1 xs (extended-Ready m x xs cur r) t (omega arith) refl again l u in
      (
        m',
        copy_turn fuel p q total f m m1 (make_room_full m x xs cur r p refl z) ∙ run,
        subst (λ o. Copied m (x ∷ xs) cur o (rest f) m') (sym e)
            (extended-Copied m x xs cur r (rest f) m' k),
      )

  make_room_left :
      (p : Place) (m : Image) → (p.left_in_block == 0) ≡ false → make_room p m ≡ some (p, m)
  unfolding make_room
  make_room_left p m e = rw e refl

  room_left :
      (fuel : ℕ) (xs : List ℕ) (p : Place) (total : ℕ) (f : F) (m : Image)
      → Ready m xs p.current_block
      → total < 2 ^ 32
      → (p.left_in_block == 0) ≡ false
      → p.block_offset + p.left_in_block ≡ 512
      → Again fuel xs
      → length (rest f) < p.left_in_block + 512 * length xs
      → length (rest f) ≤ fuel
      → Ends (suc fuel) p total f m xs
  room_left fuel xs p total f m r t z e again l u =
      let (m', run, k) = turn fuel p total f m xs r t (ground arith) e again l u in
      (m', copy_turn fuel p p total f m m (make_room_left p m z) ∙ run, k)

  -- The loop, from any place on.
  pub copy-Ends : (fuel : ℕ) (xs : List ℕ) → Again fuel xs
  copy-Ends zero xs q t g m r v e l u = absurd (omega arith)
  copy-Ends (suc fuel) [] q t g m r v e l u =
      room_left fuel [] q t g m r v (ground arith) e (copy-Ends fuel []) l (omega arith)
  copy-Ends (suc fuel) (x ∷ xs) q t g m r v e l u = elim (Bool-cases (q.left_in_block == 0)) [
    | inl full ↦
        let z : q.left_in_block ≡ 0 = ground arith in
        full_block fuel x xs q t g m r v z (omega arith) (copy-Ends fuel xs) (omega arith)
          (omega arith)
    | inr room ↦
        room_left fuel (x ∷ xs) q t g m r v room e (copy-Ends fuel (x ∷ xs)) l (omega arith)
  ]
