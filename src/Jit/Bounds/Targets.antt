-- ===== src/Jit/Bounds/Targets.antt =====
-- Each branch of the bytecode of src/hc_ir.h goes to the code behind its label.
use zealos_aarch64_bringup.Base.{
  ℕ, suc, ◌^◌, ◌≤◌, ◌<◌, ◌≡◌, refl, sym, ◌∙◌, arith, ap, ap₂, subst, inl, inr, Bool-cases, Option,
  some, List, [], ◌∷◌, ◌++◌, true, false, get_or, length, ltb, ◌==◌, ==_iff, if◌then◌else◌,
}
use mathlib.Core.Option.{some-injective}
use zealos_aarch64_bringup.Jit.Result.{ok}
use zealos_aarch64_bringup.Jit.Ops.{Op, op_of}
use zealos_aarch64_bringup.Jit.Compile.{PatchKind, Patch, Places, Gen}
use zealos_aarch64_bringup.Jit.Step.{loop, compile, is_end, empty_gen}
use zealos_aarch64_bringup.Jit.Bounds.Labels.{label_byte}
use zealos_aarch64_bringup.Jit.Bounds.Switch.{Flow, flow_of, Moves, site_of}
use zealos_aarch64_bringup.Jit.Bounds.Jumps.{Jumps}
use zealos_aarch64_bringup.Jit.Bounds.Branches.{Lands, Resolved, compile-Resolved}
use zealos_aarch64_bringup.Jit.Bounds.Reached.{
  Begins, Reached, start, round, stepped, loop-round, Reached-IsSound, Reached-loop, Begins-Reached,
  Reached-Keeps, Reached-Begins, loop-Reached,
}

-- The compiler has put out `place` words when it comes to these bytes.
pub record ComesTo (at : Places) (cap : ℕ) (bc bs : List ℕ) (place : ℕ) : Type 0 where
  pub made : Gen
  pub reached : Reached at cap bc bs made
  pub put_out : length made.code ≡ place

-- HC_LABEL with this operand.
abbrev pub label_bytes : ℕ → List ℕ → List ℕ
label_bytes id rest = 12 ∷ (id ∷ rest)

-- HC_JMP, HC_JZ and HC_JNZ
abbrev pub branch_byte : PatchKind → ℕ
branch_byte PatchKind.always = 13
branch_byte PatchKind.if_zero = 14
branch_byte PatchKind.if_not_zero = 15

module _ (at : Places) (cap : ℕ) (bc : List ℕ) (enough : 3 ≤ cap) where
  abbrev Labelled : ℕ → ℕ → Type 0
  Labelled k t = (rest : List ℕ) × ComesTo at cap bc (label_bytes k rest) t

  -- A label that has a place comes from the bytecode.
  Moves-Labelled :
      (f : Flow) (b : ℕ) (o : Op) (bs : List ℕ) (g : Gen) (r : List ℕ × Gen)
      → Reached at cap bc (b ∷ bs) g
      → op_of b ≡ some o
      → Moves f o bs g r
      → ((k t : ℕ) → g.label_at k ≡ some t → Labelled k t)
      → (k t : ℕ) → r.1.label_at k ≡ some t
      → Labelled k t
  Moves-Labelled Flow.straight b o bs g r reached known (same, more, e) before k t set =
      before k t (ap (λ (f : ℕ → Option ℕ). f k) (sym same) ∙ set)
  Moves-Labelled (Flow.jump kind) b o bs g r reached known (id, taken, (same, added)) before k t
        set =
      before k t (ap (λ (f : ℕ → Option ℕ). f k) (sym same) ∙ set)
  Moves-Labelled Flow.mark b o bs g r reached known (labels, (id, taken, unset, e)) before k t set =
      let now : (if k == id then some (length g.code) else g.label_at k) ≡ some t =
        sym (ap (λ (x : Gen). x.label_at k) e) ∙ set in
      elim (Bool-cases (k == id)) [
        | inr other ↦ let old : g.label_at k ≡ some t = rw other at now in before k t old
        | inl same ↦
            let place : length g.code ≡ t = some-injective (length g.code) t (rw same at now) in
            let byte : b ≡ 12 = label_byte b (known ∙ ap (λ (x : Op). some x) labels) in
            let bytes : b ∷ bs ≡ label_bytes k r.0 =
              ap₂ (λ (x : ℕ) (l : List ℕ). x ∷ l) byte
                (taken ∙ ap (λ (n : ℕ). n ∷ r.0) (sym ((==_iff k id).0 same))) in
            (
              r.0,
              record {
                made = g;
                reached = subst (λ l. Reached at cap bc l g) bytes reached;
                put_out = place;
              },
            )
      ]

  Reached-Labelled :
      {bs : List ℕ} {g : Gen}
      → Reached at cap bc bs g
      → (k t : ℕ) → g.label_at k ≡ some t
      → Labelled k t
  Reached-Labelled start k t set = absurd (ground arith)
  Reached-Labelled (round {b} {o} {bs} {rest} {g} {g'} r known on e) k t set =
      Moves-Labelled (flow_of o) b o bs g (rest, g') r known
        (stepped at cap o bs g (rest, g') (Reached-IsSound at cap bc enough r) e).2
        (λ k t old. Reached-Labelled r k t old) k t set

  module _ (g_end : Gen) (looped : loop (suc (length bc)) at cap bc empty_gen ≡ ok g_end) where
    -- The round of the loop that takes this operation.
    round_of :
        (b : ℕ) (o : Op) (bs : List ℕ) (g : Gen)
        → Reached at cap bc (b ∷ bs) g
        → op_of b ≡ some o
        → is_end o ≡ false
        → (r : List ℕ × Gen) × Reached at cap bc r.0 r.1 × Moves (flow_of o) o bs g r
    round_of b o bs g reached known on =
        let (fuel, ends) = Reached-loop at cap bc enough g_end looped reached in
        let (r, went, fuel', later) = loop-round at cap fuel b o bs g g_end known on ends in
        (
          r,
          round reached known on went,
          (stepped at cap o bs g r (Reached-IsSound at cap bc enough reached) went).2,
        )

    -- The place of a label is the place of its operation, and stays.
    label_kept :
        (id t : ℕ) (rest : List ℕ)
        → ComesTo at cap bc (label_bytes id rest) t
        → g_end.label_at id ≡ some t
    unfolding op_of
    label_kept id t rest comes =
        let g = comes.made in
        let (r, reached, (labels, (id', taken, unset, e))) =
          round_of 12 Op.label (id ∷ rest) g comes.reached refl refl in
        let same : id ≡ id' = ground arith in
        let own : (id == id') ≡ true = (==_iff id id').1 same in
        let set : r.1.label_at id ≡ some t =
          ap (λ (x : Gen). x.label_at id) e ∙ rw own (ap (λ (n : ℕ). some n) comes.put_out) in
        (Reached-Keeps at cap bc enough g_end looped reached).1 id t set

    jump_round :
        (kind : PatchKind) (id : ℕ) (rest : List ℕ) (g : Gen)
        → Reached at cap bc (branch_byte kind ∷ (id ∷ rest)) g
        → (r : List ℕ × Gen) × Reached at cap bc r.0 r.1
          × Jumps kind (site_of kind (length g.code)) (id ∷ rest) g r
    unfolding op_of
    jump_round PatchKind.always id rest g reached =
        round_of 13 Op.jmp (id ∷ rest) g reached refl refl
    jump_round PatchKind.if_zero id rest g reached =
        round_of 14 Op.jz (id ∷ rest) g reached refl refl
    jump_round PatchKind.if_not_zero id rest g reached =
        round_of 15 Op.jnz (id ∷ rest) g reached refl refl

    -- A branch is among those that get their offset.
    branch_kept :
        (kind : PatchKind) (id : ℕ) (rest : List ℕ) (g : Gen)
        → Reached at cap bc (branch_byte kind ∷ (id ∷ rest)) g
        → (front more : List Patch) × (g_end.patches
            ≡ (front
                ++ record { kind = kind; label = id; site = site_of kind (length g.code) } ∷ [])
              ++ more)
    branch_kept kind id rest g reached =
        let (r, later, (id', taken, (labels, added))) = jump_round kind id rest g reached in
        let same : id' ≡ id = ground arith in
        let ((more, e), keeps) = Reached-Keeps at cap bc enough g_end looped later in
        (
          g.patches,
          more,
          e
              ∙ ap (λ (ps : List Patch). ps ++ more)
                  (added
                    ∙ ap
                        (λ (n : ℕ).
                          g.patches
                          ++ record { kind = kind; label = n; site = site_of kind (length g.code) }
                            ∷ [])
                        same),
        )

Resolved-at :
    (code : List ℕ) (label_at : ℕ → Option ℕ) (front : List Patch) (p : Patch) (more : List Patch)
    → Resolved code label_at ((front ++ p ∷ []) ++ more)
    → (target : ℕ) × (label_at p.label ≡ some target)
      × (target ≤ length code)
      × (p.site < length code)
      × Lands p.kind p.site target (get_or code p.site 0)
Resolved-at code label_at [] p more h = h.0
Resolved-at code label_at (q ∷ front) p more h = Resolved-at code label_at front p more h.1

compile-room :
    (at : Places) (bc : List ℕ) (cap : ℕ) (code : List ℕ) → compile at bc cap ≡ ok code → 3 ≤ cap
unfolding compile
compile-room at bc cap code e = elim (Bool-cases (ltb cap 3)) [
  | inl tiny ↦ absurd (ground (arith, tiny))
  | inr room ↦ ground arith
]

-- Where hc_ir_compile makes code in a buffer of less than 2^18 words: for each HC_JMP, HC_JZ and
-- HC_JNZ of the bytecode, where the operations are told apart by the lengths of their operands
-- alone, the code has a B, or a CBZ or CBNZ of x16 one word further on, at the place that the
-- compiler has come to with this operation. It goes to the place that the compiler has come to
-- with an HC_LABEL of the same number in the bytecode, and every HC_LABEL of that number has this
-- place.
pub compile-Lands :
    (at : Places) (bc : List ℕ) (cap : ℕ) (code : List ℕ) (kind : PatchKind) (id : ℕ)
    (rest : List ℕ)
    → cap < 2 ^ 18
    → compile at bc cap ≡ ok code
    → Begins bc (branch_byte kind ∷ (id ∷ rest))
    → (place target : ℕ) × (behind : List ℕ) × ComesTo at cap bc
        (branch_byte kind ∷ (id ∷ rest))
        place
      × Begins bc (label_bytes id behind)
      × ComesTo at cap bc (label_bytes id behind) target
      × ((other : List ℕ) (t : ℕ) → ComesTo at cap bc (label_bytes id other) t → t ≡ target)
      × (target ≤ length code)
      × (site_of kind place < length code)
      × Lands kind (site_of kind place) target (get_or code (site_of kind place) 0)
compile-Lands at bc cap code kind id rest small e begins =
    let enough = compile-room at bc cap code e in
    let (g_end, looped, resolved) = compile-Resolved at bc cap code small e in
    let (g, reached) = Begins-Reached at cap bc enough g_end looped begins in
    let place = length g.code in
    let p : Patch = record { kind = kind; label = id; site = site_of kind place } in
    let (front, more, listed) = branch_kept at cap bc enough g_end looped kind id rest g reached in
    let (target, known, inside, stands, lands) =
      Resolved-at code g_end.label_at front p more
        (subst (Resolved code g_end.label_at) listed resolved) in
    let (bytes, ended) =
      loop-Reached at cap bc enough (suc (length bc)) bc empty_gen g_end start looped in
    let (behind, comes) = Reached-Labelled at cap bc enough ended id target known in
    (
      place,
      target,
      behind,
      record { made = g; reached = reached; put_out = refl },
      Reached-Begins at cap bc enough comes.reached,
      comes,
      (λ other t there.
          some-injective t target
            (sym (label_kept at cap bc enough g_end looped id t other there) ∙ known)),
      inside,
      stands,
      lands,
    )
