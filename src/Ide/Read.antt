-- ===== src/Ide/Read.antt =====
-- `readBlock` of kernel/ide.cc with a controller that keeps its promises to whoever waits for the drive.
use p12_group.Base.{
  ℕ, zero, suc, ◌+◌, ◌-◌, ◌*◌, ◌/◌, ◌%◌, ◌^◌, ◌<◌, ◌≤◌, ◌≡◌, ◌≢◌, ◌==◌, Bool-cases, inl, inr, List,
  [], ◌∷◌, length, arith, refl, ap, ◌∙◌, sym, Option, some,
}
use p12_group.Ide.{
  Ports, port, channel, is_busy, is_ready, wait_busy, wait_ready, wait_for_drive, issue, read_words,
  read_block,
}

-- What is relied on of a controller and its drive. `busy` and `unready` say for how many more reads of the
-- status BSY stays set and DRDY stays clear; a drive is idle when both are over. Only of an idle drive it is
-- known that it keeps the bytes that are written to its registers 2 to 6, that it takes a command, and that
-- its data port delivers the words of the sector that was asked for. `blocks` are the words on the drives,
-- by channel and sector, and `pending` the words that are to be read.
pub record IsController {D : Type 0} (ports : Ports D) (drive : ℕ) : Type 0 where
  pub reg : ℕ → D → ℕ
  pub blocks : D → ℕ → ℕ → List ℕ
  pub pending : D → List ℕ
  pub busy : D → ℕ
  pub unready : D → ℕ
  pub patience : ℕ
  pub prompt : (d : D) → (busy d < patience) × (unready d < patience)
  pub latched :
      (r v : ℕ) (d : D)
      → (busy d ≡ 0) × (unready d ≡ 0)
      → 2 ≤ r
      → r < 7
      → reg r (ports.out_byte (port drive + r) v d) ≡ v
  pub latched_other :
      (q r v : ℕ) (d : D)
      → (busy d ≡ 0) × (unready d ≡ 0)
      → 2 ≤ q
      → q < 7
      → r ≢ q
      → reg r (ports.out_byte (port drive + q) v d) ≡ reg r d
  pub latched_blocks :
      (r v : ℕ) (d : D)
      → (busy d ≡ 0) × (unready d ≡ 0)
      → 2 ≤ r
      → r < 7
      → blocks (ports.out_byte (port drive + r) v d) ≡ blocks d
  pub latched_idle :
      (r v : ℕ) (d : D)
      → (busy d ≡ 0) × (unready d ≡ 0)
      → 2 ≤ r
      → r < 7
      → (busy (ports.out_byte (port drive + r) v d) ≡ 0)
        × (unready (ports.out_byte (port drive + r) v d) ≡ 0)
  -- The command 0x20 for one sector, with the address in four registers.
  pub command :
      (d : D)
      → (busy d ≡ 0) × (unready d ≡ 0)
      → reg 2 d ≡ 1
      → reg 6 d / 2 ^ 6 % 2 ≡ 1
      → pending (ports.out_byte (port drive + 7) 0x20 d)
        ≡ blocks d
            (reg 6 d / 2 ^ 4 % 2)
            (reg 3 d + reg 4 d * 2 ^ 8 + reg 5 d * 2 ^ 16 + reg 6 d % 2 ^ 4 * 2 ^ 24)
  pub command_blocks :
      (d : D)
      → (busy d ≡ 0) × (unready d ≡ 0)
      → blocks (ports.out_byte (port drive + 7) 0x20 d) ≡ blocks d
  pub status_busy : (d : D) → is_busy (ports.in_byte (port drive + 7) d).0 ≡ 0 → busy d ≡ 0
  pub status_done : (d : D) → busy d ≡ 0 → is_busy (ports.in_byte (port drive + 7) d).0 ≡ 0
  pub status_unready : (d : D) → is_ready (ports.in_byte (port drive + 7) d).0 ≢ 0 → unready d ≡ 0
  pub status_ready : (d : D) → unready d ≡ 0 → is_ready (ports.in_byte (port drive + 7) d).0 ≡ 1
  pub status_delay :
      (d : D)
      → (busy (ports.in_byte (port drive + 7) d).1 ≤ busy d - 1)
        × (unready (ports.in_byte (port drive + 7) d).1 ≤ unready d - 1)
  pub status_blocks : (d : D) → blocks (ports.in_byte (port drive + 7) d).1 ≡ blocks d
  pub status_pending : (d : D) → pending (ports.in_byte (port drive + 7) d).1 ≡ pending d
  pub word :
      (d : D) (w : ℕ) (ws : List ℕ)
      → (busy d ≡ 0) × (unready d ≡ 0)
      → pending d ≡ w ∷ ws
      → ((ports.in_long (port drive) d).0 ≡ w) × (pending (ports.in_long (port drive) d).1 ≡ ws)
  pub word_idle :
      (d : D)
      → (busy d ≡ 0) × (unready d ≡ 0)
      → (busy (ports.in_long (port drive) d).1 ≡ 0) × (unready (ports.in_long (port drive) d).1 ≡ 0)
  pub word_blocks :
      (d : D) → (busy d ≡ 0) × (unready d ≡ 0) → blocks (ports.in_long (port drive) d).1 ≡ blocks d

module _ {D : Type 0} (ports : Ports D) (drive : ℕ) (c : IsController ports drive) where
  abbrev Idle : D → Type 0
  Idle d = (c.busy d ≡ 0) × (c.unready d ≡ 0)

  -- Waiting for what `Done` says ends, and leaves the drives and the words to be read.
  abbrev Waits : (D → Type 0) → D → Option D → Type 0
  Waits Done d r =
      (d' : D) × (r ≡ some d')
      × Done d'
      × (c.busy d' ≤ c.busy d)
      × (c.blocks d' ≡ c.blocks d)
      × (c.pending d' ≡ c.pending d)

  positive : (n : ℕ) → (n ≡ 0 → ⊥) → 0 < n
  positive n f = omega (arith, f)

  abbrev status : D → ℕ
  status d = (ports.in_byte (port drive + 7) d).0

  abbrev polled : D → D
  polled d = (ports.in_byte (port drive + 7) d).1

  later : (Done : D → Type 0) (d : D) (r : Option D) → Waits Done (polled d) r → Waits Done d r
  later Done d r (d', e, i, l, b, p) = (
    d',
    e,
    i,
    omega (arith, l, (c.status_delay d).0),
    b ∙ c.status_blocks d,
    p ∙ c.status_pending d,
  )

  here : (Done : D → Type 0) (d : D) → Done (polled d) → Waits Done d (some (polled d))
  here Done d i = (
    polled d,
    refl,
    i,
    omega (arith, (c.status_delay d).0),
    c.status_blocks d,
    c.status_pending d,
  )

  wait_busy-Waits :
      (fuel : ℕ) (d : D)
      → c.busy d < fuel
      → Waits (λ d'. c.busy d' ≡ 0) d (wait_busy ports drive fuel d)
  unfolding wait_busy
  wait_busy-Waits zero d l = absurd (omega arith)
  wait_busy-Waits (suc fuel) d l = elim (Bool-cases (is_busy (status d) == 0)) [
    | inl e ↦
        let z : c.busy d ≡ 0 = c.status_busy d (ground arith) in
        rw e (here (λ d'. c.busy d' ≡ 0) d (omega (arith, z, (c.status_delay d).0)))
    | inr e ↦
        let z : 0 < c.busy d = positive (c.busy d) λ z. (ground (arith, c.status_done d z)) in
        rw e (
          later (λ d'. c.busy d' ≡ 0) d (wait_busy ports drive fuel (polled d))
            (wait_busy-Waits fuel (polled d) (omega (arith, z, (c.status_delay d).0))))
  ]

  wait_ready-Waits :
      (fuel : ℕ) (d : D)
      → c.unready d < fuel
      → Waits (λ d'. c.unready d' ≡ 0) d (wait_ready ports drive fuel d)
  unfolding wait_ready
  wait_ready-Waits zero d l = absurd (omega arith)
  wait_ready-Waits (suc fuel) d l = elim (Bool-cases (is_ready (status d) == 0)) [
    | inr e ↦
        let z : c.unready d ≡ 0 = c.status_unready d (ground arith) in
        rw e (here (λ d'. c.unready d' ≡ 0) d (omega (arith, z, (c.status_delay d).1)))
    | inl e ↦
        let z : 0 < c.unready d =
          positive (c.unready d) λ z. (ground (arith, c.status_ready d z)) in
        rw e (
          later (λ d'. c.unready d' ≡ 0) d (wait_ready ports drive fuel (polled d))
            (wait_ready-Waits fuel (polled d) (omega (arith, z, (c.status_delay d).1))))
  ]

  -- The drive is idle behind `waitForDrive`.
  wait-Waits :
      (fuel : ℕ) (d : D) → c.patience ≤ fuel → Waits Idle d (wait_for_drive ports drive fuel d)
  unfolding wait_for_drive
  wait-Waits fuel d l =
      let (d1, e1, i1, l1, b1, p1) = wait_busy-Waits fuel d (omega (arith, l, (c.prompt d).0)) in
      let (d2, e2, i2, l2, b2, p2) = wait_ready-Waits fuel d1 (omega (arith, l, (c.prompt d1).1)) in
      (d2, rw e1 e2, (omega (arith, i1, l2), i2), omega (arith, l1, l2), b2 ∙ b1, p2 ∙ p1)

  module _ (sector : ℕ) (d : D) (i : Idle d) where
    abbrev base : ℕ
    base = port drive

    abbrev d1 : D
    d1 = ports.out_byte (base + 2) 1 d

    abbrev d2 : D
    d2 = ports.out_byte (base + 3) (sector % 2 ^ 8) d1

    abbrev d3 : D
    d3 = ports.out_byte (base + 4) (sector / 2 ^ 8 % 2 ^ 8) d2

    abbrev d4 : D
    d4 = ports.out_byte (base + 5) (sector / 2 ^ 16 % 2 ^ 8) d3

    abbrev select : ℕ
    select = 0xe0 + channel drive * 2 ^ 4 + sector / 2 ^ 24 % 2 ^ 4

    abbrev d5 : D
    d5 = ports.out_byte (base + 6) select d4

    i1 : Idle d1
    i1 = c.latched_idle 2 1 d i (omega arith) (omega arith)

    i2 : Idle d2
    i2 = c.latched_idle 3 _ d1 i1 (omega arith) (omega arith)

    i3 : Idle d3
    i3 = c.latched_idle 4 _ d2 i2 (omega arith) (omega arith)

    i4 : Idle d4
    i4 = c.latched_idle 5 _ d3 i3 (omega arith) (omega arith)

    i5 : Idle d5
    i5 = c.latched_idle 6 _ d4 i4 (omega arith) (omega arith)

    other :
        (q r v : ℕ) (d : D)
        → Idle d
        → (2 ≤ q) × (q < 7) × (r ≢ q)
        → c.reg r (ports.out_byte (base + q) v d) ≡ c.reg r d
    other q r v d h (a, b, n) = c.latched_other q r v d h a b n

    one_sector : c.reg 2 d5 ≡ 1
    one_sector =
        other 6 2 _ d4 i4 (omega arith, omega arith, omega arith)
        ∙ other 5 2 _ d3 i3 (omega arith, omega arith, omega arith)
        ∙ other 4 2 _ d2 i2 (omega arith, omega arith, omega arith)
        ∙ other 3 2 _ d1 i1 (omega arith, omega arith, omega arith)
        ∙ c.latched 2 1 d i (omega arith) (omega arith)

    low : c.reg 3 d5 ≡ sector % 2 ^ 8
    low =
        other 6 3 _ d4 i4 (omega arith, omega arith, omega arith)
        ∙ other 5 3 _ d3 i3 (omega arith, omega arith, omega arith)
        ∙ other 4 3 _ d2 i2 (omega arith, omega arith, omega arith)
        ∙ c.latched 3 (sector % 2 ^ 8) d1 i1 (omega arith) (omega arith)

    middle : c.reg 4 d5 ≡ sector / 2 ^ 8 % 2 ^ 8
    middle =
        other 6 4 _ d4 i4 (omega arith, omega arith, omega arith)
        ∙ other 5 4 _ d3 i3 (omega arith, omega arith, omega arith)
        ∙ c.latched 4 (sector / 2 ^ 8 % 2 ^ 8) d2 i2 (omega arith) (omega arith)

    high : c.reg 5 d5 ≡ sector / 2 ^ 16 % 2 ^ 8
    high =
        other 6 5 _ d4 i4 (omega arith, omega arith, omega arith)
        ∙ c.latched 5 (sector / 2 ^ 16 % 2 ^ 8) d3 i3 (omega arith) (omega arith)

    top : c.reg 6 d5 ≡ select
    top = c.latched 6 select d4 i4 (omega arith) (omega arith)

    same_blocks : c.blocks d5 ≡ c.blocks d
    same_blocks =
        c.latched_blocks 6 select d4 i4 (omega arith) (omega arith)
        ∙ c.latched_blocks 5 _ d3 i3 (omega arith) (omega arith)
        ∙ c.latched_blocks 4 _ d2 i2 (omega arith) (omega arith)
        ∙ c.latched_blocks 3 _ d1 i1 (omega arith) (omega arith)
        ∙ c.latched_blocks 2 1 d i (omega arith) (omega arith)

    -- The registers hold the address of the sector.
    issued :
        sector < 2 ^ 28
        → c.pending (issue ports drive 0x20 sector d) ≡ c.blocks d (channel drive) sector
    unfolding issue
    issued l =
        let lba : c.reg 6 d5 / 2 ^ 6 % 2 ≡ 1 = rw top (omega arith) in
        let ch : c.reg 6 d5 / 2 ^ 4 % 2 ≡ channel drive = rw top (omega arith) in
        let address : c.reg 3 d5
              + c.reg 4 d5 * 2 ^ 8
              + c.reg 5 d5 * 2 ^ 16
              + c.reg 6 d5 % 2 ^ 4 * 2 ^ 24
            ≡ sector =
          rw (low, middle, high, top) (omega arith) in
        c.command d5 i5 one_sector lba
        ∙ ap
            (λ t.
              c.blocks d5 t (
                c.reg 3 d5
                + c.reg 4 d5 * 2 ^ 8
                + c.reg 5 d5 * 2 ^ 16
                + c.reg 6 d5 % 2 ^ 4 * 2 ^ 24))
            ch
        ∙ ap (c.blocks d5 (channel drive)) address
        ∙ ap (λ f. f (channel drive) sector) same_blocks

    issued_blocks : c.blocks (issue ports drive 0x20 sector d) ≡ c.blocks d
    unfolding issue
    issued_blocks = c.command_blocks d5 i5 ∙ same_blocks

  read_words_lem :
      (ws : List ℕ) (d : D)
      → Idle d
      → c.pending d ≡ ws
      → ((read_words ports drive (length ws) d).0 ≡ ws)
        × (c.blocks (read_words ports drive (length ws) d).1 ≡ c.blocks d)
  unfolding read_words
  read_words_lem [] d i e = (refl, refl)
  read_words_lem (w ∷ ws) d i e =
      let (this, rest) = c.word d w ws i e in
      let (more, same) =
        read_words_lem ws (ports.in_long (port drive) d).1 (c.word_idle d i) rest in
      (rw (this, more) refl, same ∙ c.word_blocks d i)

-- With a controller that follows these laws, which promise nothing of a drive that is busy or not ready, fuel
-- for its patience, and a sector below 2^28 whose block has
-- as many words as the device's blocks: `readBlock` ends and delivers the words of that sector of the
-- drive's channel, and what is on the drives stays as it is.
pub read_block-Reads :
    {D : Type 0} (ports : Ports D) (drive : ℕ) (c : IsController ports drive)
    (fuel block_size sector : ℕ) (d : D)
    → c.patience ≤ fuel
    → sector < 2 ^ 28
    → length (c.blocks d (channel drive) sector) ≡ block_size / 4
    → (d' : D) × (read_block ports drive fuel block_size sector d
        ≡ some (c.blocks d (channel drive) sector, d'))
      × (c.blocks d' ≡ c.blocks d)
unfolding read_block
read_block-Reads ports drive c fuel block_size sector d l u n =
    let (d1, e1, i1, _, b1, _) = wait-Waits ports drive c fuel d l in
    let (d2, e2, i2, _, b2, p2) =
      wait-Waits ports drive c fuel (issue ports drive 0x20 sector d1) l in
    let words = c.blocks d (channel drive) sector in
    let ready : c.pending d2 ≡ words =
      p2 ∙ issued ports drive c sector d1 i1 u ∙ ap (λ f. f (channel drive) sector) b1 in
    let (got, same) = read_words_lem ports drive c words d2 i2 ready in
    (
      (read_words ports drive (length words) d2).1,
      rw (e1, e2, sym n) (ap (λ t. some (t, (read_words ports drive (length words) d2).1)) got),
      same ∙ b2 ∙ issued_blocks ports drive c sector d1 i1 ∙ b1,
    )
