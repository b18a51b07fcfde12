-- ===== src/Topology/Entries.antt =====
-- coreinit/topology_aarch64.c: the walk over a MADT whose bytes say a list of entries.
use otos_coreinit.Base.{
  ℕ, zero, suc, ◌+◌, ◌/◌, ◌%◌, ◌≤◌, ◌<◌, ◌≡◌, ◌≢◌, refl, sym, ap, subst, Bool, true, false, List,
  [], ◌∷◌, ◌++◌, some, ltb, leb, ◌==◌, if◌then◌else◌, ◌&&◌, ◌||◌, length, length-append, replicate,
  All, arith,
}
use otos_coreinit.Wire.{flag}
use otos_coreinit.Topology.{Memory, byte, affinity, topology_max_cores}
use otos_coreinit.Topology.Acpi.{le_read}
use otos_coreinit.Topology.Madt.{Found, add_core, on_entry, entries_from}

-- The bytes `xs` stand at `p`.
abbrev pub Stored : Memory → ℕ → List ℕ → Type 0
Stored m p [] = Unit
Stored m p (x ∷ xs) = (byte m p ≡ x) × Stored m (p + 1) xs

Stored-left : (m : Memory) (p : ℕ) (xs ys : List ℕ) → Stored m p (xs ++ ys) → Stored m p xs
Stored-left m p [] ys h = tt
Stored-left m p (x ∷ xs) ys h = (h.0, Stored-left m (p + 1) xs ys h.1)

Stored-right :
    (m : Memory) (p q : ℕ) (xs ys : List ℕ)
    → p + length xs ≡ q
    → Stored m p (xs ++ ys)
    → Stored m q ys
Stored-right m p q [] ys e h =
    let same : p ≡ q = omega (arith, e) in subst (λ x. Stored m x ys) same h
Stored-right m p q (x ∷ xs) ys e h = Stored-right m (p + 1) q xs ys (omega (arith, e)) h.1

-- A number in `n` bytes, the lowest first, and that it fits there.
abbrev pub le : ℕ → ℕ → List ℕ
le zero v = []
le (suc n) v = v % 256 ∷ le n (v / 256)

abbrev pub Fits : ℕ → ℕ → Type 0
Fits zero v = v ≡ 0
Fits (suc n) v = Fits n (v / 256)

le_read-le : (m : Memory) (p n v : ℕ) → Fits n v → Stored m p (le n v) → le_read m p n ≡ v
unfolding le_read
le_read-le m p zero v fits h = sym fits
le_read-le m p (suc n) v fits h = omega (arith, h.0, le_read-le m (p + 1) n (v / 256) fits h.1)

-- What an entry says: a core with its interface, the distributor, the redistributors, or something
-- that the walk passes over.
pub data Entry : Type 0 where
  gicc : Bool → ℕ → ℕ → Entry
  gicd : ℕ → ℕ → Entry
  gicr : ℕ → ℕ → Entry
  other : ℕ → List ℕ → Entry

abbrev pub emit_entry : Entry → List ℕ
emit_entry (gicc enabled mpidr base) =
    11 ∷ 80 ∷ replicate 10 0
    ++ (le 4 (flag enabled)
        ++ (replicate 16 0 ++ (le 8 base ++ (replicate 28 0 ++ (le 8 mpidr ++ replicate 4 0)))))
emit_entry (gicd base version) =
    12 ∷ 24 ∷ replicate 6 0 ++ (le 8 base ++ (replicate 4 0 ++ version ∷ replicate 3 0))
emit_entry (gicr base size) = 14 ∷ 16 ∷ 0 ∷ 0 ∷ le 8 base ++ le 4 size
emit_entry (other type payload) = type ∷ (length payload + 2) ∷ payload

abbrev pub IsEntry : Entry → Type 0
IsEntry (gicc enabled mpidr base) = Fits 8 mpidr × Fits 8 base
IsEntry (gicd base version) = Fits 8 base
IsEntry (gicr base size) = Fits 8 base × Fits 4 size
IsEntry (other type payload) = (type ≢ 11) × (type ≢ 12) × (type ≢ 14)

-- What is known after an entry.
abbrev pub learn : Found → Entry → Found
learn f (gicc enabled mpidr base) = record f {
  cores = f.cores ++ record { target = affinity mpidr; enabled = enabled } ∷ [];
  gicc_base = if enabled && f.gicc_base == 0 then base else f.gicc_base;
}
learn f (gicd base version) = record f { distributor = base; gic_version = version }
learn f (gicr base size) = record f { gicr_base = base; gicr_size = size }
learn f (other type payload) = f

flag-odd : (b : Bool) → (flag b % 2 == 1) ≡ b
flag-odd true = refl
flag-odd false = refl

flag-Fits : (b : Bool) → Fits 4 (flag b)
flag-Fits true = refl
flag-Fits false = refl

gicc-learn :
    (m : Memory) (p : ℕ) (enabled : Bool) (mpidr base : ℕ) (f : Found)
    → Fits 8 mpidr
    → Fits 8 base
    → Stored m p (emit_entry (gicc enabled mpidr base))
    → add_core m p f ≡ learn f (gicc enabled mpidr base)
unfolding add_core
gicc-learn m p enabled mpidr base f fits_mpidr fits_base h =
    let r5 = le 8 mpidr ++ replicate 4 0 in
    let r4 = le 8 base ++ (replicate 28 0 ++ r5) in
    let r3 = le 4 (flag enabled) ++ (replicate 16 0 ++ r4) in
    let h3 = Stored-right m p (p + 12) (11 ∷ 80 ∷ replicate 10 0) r3 refl h in
    let h4 = Stored-right m (p + 16) (p + 32) (replicate 16 0) r4 (omega arith) (
      Stored-right m (p + 12) (p + 16) (le 4 (flag enabled)) (replicate 16 0 ++ r4) (omega arith)
        h3) in
    let h5 =
      Stored-right m (p + 40) (p + 68) (replicate 28 0) r5 (omega arith)
        (Stored-right m (p + 32) (p + 40) (le 8 base) (replicate 28 0 ++ r5) (omega arith) h4) in
    let flags =
      le_read-le m (p + 12) 4 (flag enabled) (flag-Fits enabled)
        (Stored-left m (p + 12) (le 4 (flag enabled)) (replicate 16 0 ++ r4) h3) in
    let bases =
      le_read-le m (p + 32) 8 base fits_base
        (Stored-left m (p + 32) (le 8 base) (replicate 28 0 ++ r5) h4) in
    let cores =
      le_read-le m (p + 68) 8 mpidr fits_mpidr
        (Stored-left m (p + 68) (le 8 mpidr) (replicate 4 0) h5) in
    rw flags (rw bases (rw cores (rw (flag-odd enabled) refl)))

-- The second byte of an entry is its length.
emit_entry-length :
    (m : Memory) (p : ℕ) (e : Entry)
    → Stored m p (emit_entry e)
    → (byte m (p + 1) ≡ length (emit_entry e)) × (2 ≤ length (emit_entry e))
emit_entry-length m p (gicc enabled mpidr base) h = (h.1.0, omega arith)
emit_entry-length m p (gicd base version) h = (h.1.0, omega arith)
emit_entry-length m p (gicr base size) h = (h.1.0, omega arith)
emit_entry-length m p (other type payload) h = (omega (arith, h.1.0), omega arith)

abbrev pub cores_of : Entry → ℕ
cores_of (gicc enabled mpidr base) = 1
cores_of (gicd base version) = 0
cores_of (gicr base size) = 0
cores_of (other type payload) = 0

length-learn : (f : Found) (e : Entry) → length (learn f e).cores ≡ length f.cores + cores_of e
length-learn f (gicc enabled mpidr base) =
    length-append f.cores (record { target = affinity mpidr; enabled = enabled } ∷ [])
length-learn f (gicd base version) = omega arith
length-learn f (gicr base size) = omega arith
length-learn f (other type payload) = omega arith

on_entry-learn :
    (m : Memory) (p : ℕ) (e : Entry) (f : Found)
    → IsEntry e
    → length f.cores + cores_of e ≤ topology_max_cores
    → Stored m p (emit_entry e)
    → on_entry m p (length (emit_entry e)) f ≡ some (learn f e)
unfolding on_entry
on_entry-learn m p (gicc enabled mpidr base) f is room h =
    let free : leb topology_max_cores (length f.cores) ≡ false = ground (arith, room) in
    rw (h.0, on_entry) (rw free (ap some (gicc-learn m p enabled mpidr base f is.0 is.1 h)))
on_entry-learn m p (gicd base version) f is room h =
    let r2 = replicate 4 0 ++ version ∷ replicate 3 0 in
    let h2 = Stored-right m p (p + 8) (12 ∷ 24 ∷ replicate 6 0) (le 8 base ++ r2) refl h in
    let h3 =
      Stored-right m (p + 16) (p + 20) (replicate 4 0) (version ∷ replicate 3 0) (omega arith)
        (Stored-right m (p + 8) (p + 16) (le 8 base) r2 (omega arith) h2) in
    let bases = le_read-le m (p + 8) 8 base is (Stored-left m (p + 8) (le 8 base) r2 h2) in
    rw (h.0, on_entry) (rw bases (rw (h3.0) refl))
on_entry-learn m p (gicr base size) f is room h =
    let h2 = Stored-right m p (p + 4) (14 ∷ 16 ∷ 0 ∷ 0 ∷ []) (le 8 base ++ le 4 size) refl h in
    let h3 = Stored-right m (p + 4) (p + 12) (le 8 base) (le 4 size) (omega arith) h2 in
    let bases =
      le_read-le m (p + 4) 8 base is.0 (Stored-left m (p + 4) (le 8 base) (le 4 size) h2) in
    let sizes = le_read-le m (p + 12) 4 size is.1 h3 in
    rw (h.0, on_entry) (rw bases (rw sizes refl))
on_entry-learn m p (other type payload) f is room h =
    let not11 : (byte m p == 11) ≡ false = ground (arith, h.0, is.0) in
    let not12 : (byte m p == 12) ≡ false = ground (arith, h.0, is.1) in
    let not14 : (byte m p == 14) ≡ false = ground (arith, h.0, is.2) in
    rw (not11, on_entry) (rw not12 (rw not14 refl))

abbrev pub emit_entries : List Entry → List ℕ
emit_entries [] = []
emit_entries (e ∷ es) = emit_entry e ++ emit_entries es

abbrev pub learn_all : Found → List Entry → Found
learn_all f [] = f
learn_all f (e ∷ es) = learn_all (learn f e) es

abbrev pub total_cores : List Entry → ℕ
total_cores [] = 0
total_cores (e ∷ es) = cores_of e + total_cores es

-- Where memory holds the bytes of a list of entries, of no more than 64 cores in all, the walk over
-- them with a round for each byte and one more ends, and what it has learnt is what each entry says in
-- turn: the cores in their order, the last distributor and redistributors, and the interface of the
-- first enabled core.
pub entries_from-emit :
    (es : List Entry) (fuel : ℕ) (m : Memory) (p end : ℕ) (f : Found)
    → All IsEntry es
    → length f.cores + total_cores es ≤ topology_max_cores
    → Stored m p (emit_entries es)
    → p + length (emit_entries es) ≡ end
    → length (emit_entries es) < fuel
    → entries_from fuel m p end f ≡ some (learn_all f es)
unfolding entries_from
entries_from-emit es zero m p end f are room h at enough = absurd (omega (arith, enough))
entries_from-emit [] (suc fuel) m p end f are room h at enough =
    let over : ltb end (p + 2) ≡ true = ground (arith, at) in rw over refl
entries_from-emit (e ∷ es) (suc fuel) m p end f are room h at enough =
    let here = Stored-left m p (emit_entry e) (emit_entries es) h in
    let (size, two) = emit_entry-length m p e here in
    let total = length-append (emit_entry e) (emit_entries es) in
    let inside : ltb end (p + 2) ≡ false = ground (arith, at, total, two) in
    let good : (ltb (byte m (p + 1)) 2 || ltb end (p + byte m (p + 1))) ≡ false =
      ground (arith, at, total, two, size) in
    let next = p + byte m (p + 1) in
    let got : on_entry m p (byte m (p + 1)) f ≡ some (learn f e) =
      rw size (on_entry-learn m p e f are.0 (omega (arith, room)) here) in
    rw inside (
      rw good (
        rw got (
          entries_from-emit es fuel m next end (learn f e) are.1
            (omega (arith, room, length-learn f e))
            (Stored-right m p next (emit_entry e) (emit_entries es) (omega (arith, size)) h)
            (omega (arith, at, total, size)) (omega (arith, enough, total, two)))))
