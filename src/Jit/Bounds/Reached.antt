-- ===== src/Jit/Bounds/Reached.antt =====
-- The loop of hc_ir_compile, src/hc_ir.h, comes to every operation of the bytecode.
use zealos_aarch64_bringup.Base.{
  ℕ, zero, suc, ◌≤◌, ◌≡◌, sym, ◌∙◌, arith, ap, subst, inl, inr, Bool-cases, Option-cases, Option,
  some, List, [], ◌∷◌, ◌++◌, append-nil, append_assoc, false, drop, length, ◌==◌,
}
use zealos_aarch64_bringup.Jit.Result.{Result, ok, ◌>>=◌}
use zealos_aarch64_bringup.Jit.Ops.{Op, op_of}
use zealos_aarch64_bringup.Jit.Compile.{Patch, Places, Gen}
use zealos_aarch64_bringup.Jit.Step.{step, loop, is_end, empty_gen}
use zealos_aarch64_bringup.Jit.Bounds.{Ensures, IsSound}
use zealos_aarch64_bringup.Jit.Bounds.Switch.{
  Flow, flow_of, Moves, Stepped, operand_bytes, step-Stepped,
}
use zealos_aarch64_bringup.Jit.Bounds.Loop.{empty_gen-IsSound}
use zealos_aarch64_bringup.Jit.Bounds.Branches.{bind-ok}

-- Where the operations of the bytecode begin: each is a byte and its operand. Nothing is said of
-- what the compiler does with them.
pub data Begins (bc : List ℕ) : List ℕ → Type 0 where
  first : Begins bc bc
  after :
      {b : ℕ} {o : Op} {bs rest : List ℕ}
      → Begins bc (b ∷ bs)
      → op_of b ≡ some o
      → is_end o ≡ false
      → rest ≡ drop (operand_bytes o) bs
      → Begins bc rest

-- The bytes that the compiler has still to read, and what it has made so far.
pub data Reached (at : Places) (cap : ℕ) (bc : List ℕ) : List ℕ → Gen → Type 0 where
  start : Reached at cap bc bc empty_gen
  round :
      {b : ℕ} {o : Op} {bs rest : List ℕ} {g g' : Gen}
      → Reached at cap bc (b ∷ bs) g
      → op_of b ≡ some o
      → is_end o ≡ false
      → step at cap o bs g ≡ ok (rest, g')
      → Reached at cap bc rest g'

-- The branches stay and the labels keep their places.
abbrev pub Keeps : Gen → Gen → Type 0
Keeps g g' =
    ((more : List Patch) × (g'.patches ≡ g.patches ++ more))
    × ((k t : ℕ) → g.label_at k ≡ some t → g'.label_at k ≡ some t)

Keeps-trans : (g₁ g₂ g₃ : Gen) → Keeps g₁ g₂ → Keeps g₂ g₃ → Keeps g₁ g₃
Keeps-trans g₁ g₂ g₃ ((more, e), keeps) ((more', e'), keeps') = (
  (
    more ++ more',
    e' ∙ ap (λ (ps : List Patch). ps ++ more') e ∙ append_assoc g₁.patches more more',
  ),
  (λ k t known. keeps' k t (keeps k t known)),
)

Moves-Keeps :
    (f : Flow) (o : Op) (bs : List ℕ) (g : Gen) (r : List ℕ × Gen) → Moves f o bs g r → Keeps g r.1
Moves-Keeps Flow.straight o bs g r (same, more, e) =
    ((more, e), (λ k t known. ap (λ (f : ℕ → Option ℕ). f k) same ∙ known))
Moves-Keeps Flow.mark o bs g r (is_label, (id, taken, unset, e)) = (
  ([], ap (λ (x : Gen). x.patches) e ∙ sym (append-nil g.patches)),
  (λ k t known. ap (λ (x : Gen). x.label_at k) e ∙ elim (Bool-cases (k == id)) [
    | inl same ↦ absurd (ground (arith, same))
    | inr other ↦ rw other known
  ]),
)
Moves-Keeps (Flow.jump kind) o bs g r (id, taken, (same, added)) =
    ((_, added), (λ k t known. ap (λ (f : ℕ → Option ℕ). f k) same ∙ known))

-- What holds of a round that has gone well.
of_ok : {A : Type 0} (P : A → Type 0) (r : Result A) (a : A) → r ≡ ok a → Ensures P r → P a
of_ok P r a e h = subst (Ensures P) e h

module _ (at : Places) (cap : ℕ) where
  pub stepped :
      (o : Op) (bs : List ℕ) (g : Gen) (r : List ℕ × Gen)
      → IsSound cap g
      → step at cap o bs g ≡ ok r
      → Stepped cap o bs g r
  stepped o bs g r s e =
      of_ok (Stepped cap o bs g) (step at cap o bs g) r e (step-Stepped at cap o bs g s)

  -- A loop that ends well comes through its first round.
  pub loop-round :
      (fuel b : ℕ) (o : Op) (bs : List ℕ) (g g_end : Gen)
      → op_of b ≡ some o
      → is_end o ≡ false
      → loop fuel at cap (b ∷ bs) g ≡ ok g_end
      → (r : List ℕ × Gen) × (step at cap o bs g ≡ ok r)
        × (fuel' : ℕ) × (loop fuel' at cap r.0 r.1 ≡ ok g_end)
  unfolding loop
  loop-round zero b o bs g g_end known on e = absurd (ground arith)
  loop-round (suc fuel) b o bs g g_end known on e =
      let made : (step at cap o bs g >>= λ r. loop fuel at cap r.0 r.1) ≡ ok g_end =
        rw (loop, known, on) at e in
      let (r, went, later) =
        bind-ok (step at cap o bs g) (λ r. loop fuel at cap r.0 r.1) g_end made in
      (r, went, fuel, later)

  pub loop-Keeps :
      (fuel : ℕ) (bs : List ℕ) (g g_end : Gen)
      → IsSound cap g
      → loop fuel at cap bs g ≡ ok g_end
      → Keeps g g_end
  unfolding loop
  loop-Keeps zero bs g g_end s e = absurd (ground arith)
  loop-Keeps (suc fuel) [] g g_end s e =
      let same : g ≡ g_end = ground arith in
      subst (Keeps g) same (([], sym (append-nil g.patches)), (λ k t known. known))
  loop-Keeps (suc fuel) (b ∷ bs) g g_end s e = elim (Option-cases (op_of b)) [
    | inl stops ↦ absurd (ground (arith, stops))
    | inr (o, known) ↦ elim (Bool-cases (is_end o)) [
      | inl stops ↦
          let done : ok g ≡ ok g_end = rw (loop, known, stops) at e in
          let same : g ≡ g_end = ground arith in
          subst (Keeps g) same (([], sym (append-nil g.patches)), (λ k t here. here))
      | inr on ↦
          let made : (step at cap o bs g >>= λ r. loop fuel at cap r.0 r.1) ≡ ok g_end =
            rw (loop, known, on) at e in
          let (r, went, later) =
            bind-ok (step at cap o bs g) (λ r. loop fuel at cap r.0 r.1) g_end made in
          let h = stepped o bs g r s went in
          Keeps-trans g r.1 g_end (Moves-Keeps (flow_of o) o bs g r h.2)
            (loop-Keeps fuel r.0 r.1 g_end h.1 later)
    ]
  ]

module _ (at : Places) (cap : ℕ) (bc : List ℕ) (enough : 3 ≤ cap) where
  pub Reached-IsSound : {bs : List ℕ} {g : Gen} → Reached at cap bc bs g → IsSound cap g
  Reached-IsSound start = empty_gen-IsSound cap enough
  Reached-IsSound (round {b} {o} {bs} {rest} {g} {g'} r known on e) =
      (stepped at cap o bs g (rest, g') (Reached-IsSound r) e).1

  module _ (g_end : Gen) (looped : loop (suc (length bc)) at cap bc empty_gen ≡ ok g_end) where
    -- From wherever it has come to, the loop ends as it does as a whole.
    pub Reached-loop :
        {bs : List ℕ} {g : Gen}
        → Reached at cap bc bs g
        → (fuel : ℕ) × (loop fuel at cap bs g ≡ ok g_end)
    Reached-loop start = (suc (length bc), looped)
    Reached-loop (round {b} {o} {bs} {rest} {g} {g'} r known on e) =
        let (fuel, ends) = Reached-loop r in
        let (r', went, fuel', later) = loop-round at cap fuel b o bs g g_end known on ends in
        let same : r' ≡ (rest, g') = ground arith in
        (fuel', subst (λ (x : List ℕ × Gen). loop fuel' at cap x.0 x.1 ≡ ok g_end) same later)

    -- The loop comes to every operation.
    pub Begins-Reached : {bs : List ℕ} → Begins bc bs → (g : Gen) × Reached at cap bc bs g
    Begins-Reached first = (empty_gen, start)
    Begins-Reached (after {b} {o} {bs} {rest} begins known on e) =
        let (g, r) = Begins-Reached begins in
        let (fuel, ends) = Reached-loop r in
        let (r', went, fuel', later) = loop-round at cap fuel b o bs g g_end known on ends in
        let h = stepped at cap o bs g r' (Reached-IsSound r) went in
        (r'.1, subst (λ l. Reached at cap bc l r'.1) (h.0 ∙ sym e) (round r known on went))

    pub Reached-Keeps : {bs : List ℕ} {g : Gen} → Reached at cap bc bs g → Keeps g g_end
    Reached-Keeps {bs} {g} r =
        let (fuel, ends) = Reached-loop r in
        loop-Keeps at cap fuel bs g g_end (Reached-IsSound r) ends

  -- What the compiler has come to is an operation of the bytecode.
  pub Reached-Begins : {bs : List ℕ} {g : Gen} → Reached at cap bc bs g → Begins bc bs
  Reached-Begins start = first
  Reached-Begins (round {b} {o} {bs} {rest} {g} {g'} r known on e) =
      after (Reached-Begins r) known on ((stepped at cap o bs g (rest, g') (Reached-IsSound r) e).0)

  -- What the loop ends with, it has come to.
  pub loop-Reached :
      (fuel : ℕ) (bs : List ℕ) (g g_end : Gen)
      → Reached at cap bc bs g
      → loop fuel at cap bs g ≡ ok g_end
      → (bs' : List ℕ) × Reached at cap bc bs' g_end
  unfolding loop
  loop-Reached zero bs g g_end r e = absurd (ground arith)
  loop-Reached (suc fuel) [] g g_end r e =
      let same : g ≡ g_end = ground arith in ([], subst (Reached at cap bc []) same r)
  loop-Reached (suc fuel) (b ∷ bs) g g_end r e = elim (Option-cases (op_of b)) [
    | inl stops ↦ absurd (ground (arith, stops))
    | inr (o, known) ↦ elim (Bool-cases (is_end o)) [
      | inl stops ↦
          let done : ok g ≡ ok g_end = rw (loop, known, stops) at e in
          let same : g ≡ g_end = ground arith in (b ∷ bs, subst (Reached at cap bc (b ∷ bs)) same r)
      | inr on ↦
          let made : (step at cap o bs g >>= λ r. loop fuel at cap r.0 r.1) ≡ ok g_end =
            rw (loop, known, on) at e in
          let (r', went, later) =
            bind-ok (step at cap o bs g) (λ r. loop fuel at cap r.0 r.1) g_end made in
          loop-Reached fuel r'.0 r'.1 g_end (round r known on went) later
    ]
  ]
