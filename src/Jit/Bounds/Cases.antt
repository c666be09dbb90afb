-- ===== src/Jit/Bounds/Cases.antt =====
-- One round of the switch in hc_ir_compile, src/hc_ir.h, case by case.
use zealos_aarch64_bringup.Base.{
  ℕ, zero, suc, ◌+◌, ◌-◌, ◌≤◌, ◌≡◌, refl, ap, sym, subst, ◌∙◌, arith, ◌||◌, Option, none, some,
  List, [], ◌∷◌, ◌++◌, append-nil, ltb, leb, length, drop, ◌==◌, if◌then◌else◌,
}
use zealos_aarch64_bringup.Jit.Result.{Error, Result, ok, err, ◌>>=◌}
use zealos_aarch64_bringup.Jit.Encode.{a64_emit_imm64}
use zealos_aarch64_bringup.Jit.Ops.{Arith, Compare}
use zealos_aarch64_bringup.Jit.Compile.{
  max_depth, max_labels, max_locals, Patch, Gen, with_sp, reg_at,
}
use zealos_aarch64_bringup.Jit.Stack.{
  done, gen_arith, gen_compare, gen_drop, gen_dup, gen_imm64, gen_label, gen_ld_local, gen_st_local,
  gen_swap, gen_top, read_le, read_u64, take_byte, is_set,
}
use zealos_aarch64_bringup.Jit.Bounds.{
  Ensures, Ensures-bind, Ensures-guard, Inside, Rising, IsSound, Grows, Grows-self, emit-Grows,
  emits-Grows, emit_block-Grows,
}

-- No label is set, and the branches stay; new ones come behind them.
abbrev pub Extends : Gen → Gen → Type 0
Extends g g' = (g'.label_at ≡ g.label_at) × (more : List Patch) × (g'.patches ≡ g.patches ++ more)

-- `n` bytes are read, and the state stays sound.
abbrev pub Next : ℕ → ℕ → List ℕ → Gen → List ℕ × Gen → Type 0
Next cap n bs g r = (r.0 ≡ drop n bs) × IsSound cap r.1 × Extends g r.1

pub Grows-Extends : (cap : ℕ) (g g' : Gen) → Grows cap g g' → Extends g g'
Grows-Extends cap g g' h = (h.same_labels, [], h.same_patches ∙ sym (append-nil g.patches))

Inside-le : (n n' : ℕ) (ps : List Patch) → n ≤ n' → Inside n ps → Inside n' ps
Inside-le n n' [] le h = tt
Inside-le n n' (p ∷ ps) le (here, rest) = (omega arith, Inside-le n n' ps le rest)

pub IsSound-Grows :
    (cap sp : ℕ) (g g' : Gen)
    → IsSound cap g
    → Grows cap g g'
    → sp ≤ max_depth
    → IsSound cap (with_sp sp g')
IsSound-Grows cap sp g g' s h low = record {
  fits = h.fits;
  depth = low;
  labels = λ k at e.
      omega
        (arith, h.longer, s.labels k at (ap (λ (f : ℕ → Option ℕ). f k) (sym h.same_labels) ∙ e));
  sites =
      subst (Inside (length g'.code)) (sym h.same_patches)
        (Inside-le (length g.code) (length g'.code) g.patches h.longer s.sites);
  rising = subst Rising (sym h.same_patches) s.rising;
}

pub done-Next :
    (cap n : ℕ) (bs rest : List ℕ) (sp : ℕ) (g : Gen) (r : Result Gen)
    → IsSound cap g
    → Ensures (Grows cap g) r
    → sp ≤ max_depth
    → rest ≡ drop n bs
    → Ensures (Next cap n bs g) (done rest sp r)
done-Next cap n bs rest sp g (ok g') s h low read =
    (read, IsSound-Grows cap sp g g' s h low, Grows-Extends cap g g' h)
done-Next cap n bs rest sp g (err e) s h low read = h

take_byte-drop : (bs : List ℕ) → Ensures (λ r. r.1 ≡ drop 1 bs) (take_byte bs)
unfolding take_byte
take_byte-drop [] = tt
take_byte-drop (b ∷ bs) = refl

read_le-drop : (n b acc : ℕ) (bs : List ℕ) → Ensures (λ r. r.1 ≡ drop n bs) (read_le n b acc bs)
unfolding read_le
read_le-drop zero b acc bs = refl
read_le-drop (suc n) b acc [] = tt
read_le-drop (suc n) b acc (x ∷ xs) = read_le-drop n (b + 1) _ xs

-- The operand and then the rest of a case.
module _ (P : List ℕ × Gen → Type 0) (bs : List ℕ) (f : ℕ × List ℕ → Result (List ℕ × Gen)) where
  pub after_byte :
      ((b : ℕ) (rest : List ℕ) → rest ≡ drop 1 bs → Ensures P (f (b, rest)))
      → Ensures P (take_byte bs >>= f)
  after_byte h =
      Ensures-bind (λ r. r.1 ≡ drop 1 bs) P (take_byte bs) f (take_byte-drop bs)
        λ r read. h r.0 r.1 read

  pub after_u64 :
      ((v : ℕ) (rest : List ℕ) → rest ≡ drop 8 bs → Ensures P (f (v, rest)))
      → Ensures P (read_u64 bs >>= f)
  after_u64 h =
      Ensures-bind (λ r. r.1 ≡ drop 8 bs) P (read_u64 bs) f (read_le-drop 8 0 0 bs)
        λ r read. h r.0 r.1 read

module _ (cap : ℕ) (bs : List ℕ) (g : Gen) (s : IsSound cap g) where
  pub gen_imm64-Next : Ensures (Next cap 8 bs g) (gen_imm64 cap bs g)
  unfolding gen_imm64 a64_emit_imm64
  gen_imm64-Next = after_u64 (Next cap 8 bs g) bs _ λ v rest read.
      Ensures-guard (Next cap 8 bs g) (leb max_depth g.sp) Error.depth _ tt λ e.
        done-Next cap 8 bs rest (g.sp + 1) g _ s
          (emit_block-Grows cap 4 (a64_emit_imm64 (reg_at g.sp) v) g (omega arith)) (ground arith)
          read

  pub gen_arith-Next : (o : Arith) → Ensures (Next cap 0 bs g) (gen_arith cap o bs g)
  unfolding gen_arith
  gen_arith-Next o = Ensures-guard (Next cap 0 bs g) (ltb g.sp 2) Error.depth _ tt λ e.
      done-Next cap 0 bs bs (g.sp - 1) g _ s (emits-Grows cap _ g s.fits) (omega (arith, s.depth))
        refl

  pub gen_compare-Next : (o : Compare) → Ensures (Next cap 0 bs g) (gen_compare cap o bs g)
  unfolding gen_compare
  gen_compare-Next o = Ensures-guard (Next cap 0 bs g) (ltb g.sp 2) Error.depth _ tt λ e.
      done-Next cap 0 bs bs (g.sp - 1) g _ s (emits-Grows cap _ g s.fits) (omega (arith, s.depth))
        refl

  pub gen_top-Next : (words : ℕ → List ℕ) → Ensures (Next cap 0 bs g) (gen_top cap words bs g)
  gen_top-Next words =
      Ensures-guard (Next cap 0 bs g) (ltb g.sp 1) Error.depth _ tt
        λ e. done-Next cap 0 bs bs g.sp g _ s (emits-Grows cap _ g s.fits) s.depth refl

  pub gen_dup-Next : Ensures (Next cap 0 bs g) (gen_dup cap bs g)
  unfolding gen_dup
  gen_dup-Next =
      Ensures-guard (Next cap 0 bs g) (ltb g.sp 1 || leb max_depth g.sp) Error.depth _ tt
        λ e. done-Next cap 0 bs bs (g.sp + 1) g _ s (emit-Grows cap _ g) (ground arith) refl

  pub gen_swap-Next : Ensures (Next cap 0 bs g) (gen_swap cap bs g)
  unfolding gen_swap
  gen_swap-Next =
      Ensures-guard (Next cap 0 bs g) (ltb g.sp 2) Error.depth _ tt
        λ e. done-Next cap 0 bs bs g.sp g _ s (emits-Grows cap _ g s.fits) s.depth refl

  pub gen_drop-Next : Ensures (Next cap 0 bs g) (gen_drop bs g)
  unfolding gen_drop
  gen_drop-Next = Ensures-guard (Next cap 0 bs g) (ltb g.sp 1) Error.depth _ tt λ e.
      done-Next cap 0 bs bs (g.sp - 1) g (ok g) s (Grows-self cap g s.fits) (omega (arith, s.depth))
        refl

  pub gen_st_local-Next : Ensures (Next cap 1 bs g) (gen_st_local cap bs g)
  unfolding gen_st_local
  gen_st_local-Next = after_byte (Next cap 1 bs g) bs _ λ slot rest read.
      Ensures-guard (Next cap 1 bs g) (leb max_locals slot || ltb g.sp 1) Error.local _ tt λ e.
        done-Next cap 1 bs rest (g.sp - 1) g _ s (emit-Grows cap _ g) (omega (arith, s.depth)) read

  pub gen_ld_local-Next : Ensures (Next cap 1 bs g) (gen_ld_local cap bs g)
  unfolding gen_ld_local
  gen_ld_local-Next = after_byte (Next cap 1 bs g) bs _ λ slot rest read.
      Ensures-guard (Next cap 1 bs g) (leb max_locals slot || leb max_depth g.sp) Error.local _ tt
        λ e. done-Next cap 1 bs rest (g.sp + 1) g _ s (emit-Grows cap _ g) (ground arith) read

-- A label that was not set is set to the place behind the code.
abbrev pub Marks : List ℕ → Gen → List ℕ × Gen → Type 0
Marks bs g r =
    (id : ℕ) × (bs ≡ id ∷ r.0)
    × (g.label_at id ≡ none)
    × (r.1 ≡ record g { label_at = λ k. if k == id then some (length g.code) else g.label_at k })

pub gen_label-Marks :
    (cap : ℕ) (bs : List ℕ) (g : Gen)
    → IsSound cap g
    → Ensures (λ r. (r.0 ≡ drop 1 bs) × IsSound cap r.1 × Marks bs g r) (gen_label bs g)
unfolding gen_label take_byte
gen_label-Marks cap [] g s = tt
gen_label-Marks cap (id ∷ rest) g s =
    Ensures-guard _ (leb max_labels id || is_set (g.label_at id)) Error.label _ tt λ e. (
      refl,
      record {
        fits = s.fits;
        depth = s.depth;
        labels = λ k at known. ground (arith, s.labels k at);
        sites = s.sites;
        rising = s.rising;
      },
      (id, refl, ground arith, refl),
    )
