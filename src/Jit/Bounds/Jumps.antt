-- ===== src/Jit/Bounds/Jumps.antt =====
-- The branches that hc_ir_compile, src/hc_ir.h, puts out.
use zealos_aarch64_bringup.Base.{
  ℕ, zero, suc, ◌-◌, ◌≤◌, ◌<◌, ◌≡◌, refl, sym, ◌∙◌, ap, ap₂, ◌+◌, drop, subst, arith, List, [], ◌∷◌,
  ◌++◌, ltb, leb, length, length-append,
}
use zealos_aarch64_bringup.Jit.Result.{Error}
use zealos_aarch64_bringup.Jit.Encode.{a64_mov_x}
use zealos_aarch64_bringup.Jit.Compile.{
  max_depth, max_labels, max_patches, PatchKind, Patch, Gen, with_sp, more_code, emit, emit_br,
  set_word,
}
use zealos_aarch64_bringup.Jit.Stack.{gen_jmp, gen_jump_on, top_reg, take_byte}
use zealos_aarch64_bringup.Jit.Bounds.{
  Ensures, Ensures-bind, Ensures-guard, Inside, Above, Rising, IsSound, Grows, more_code-Grows,
}
use zealos_aarch64_bringup.Jit.Bounds.Cases.{IsSound-Grows}

pub length-set_word : (site w : ℕ) (code : List ℕ) → length (set_word site w code) ≡ length code
unfolding set_word
length-set_word site w [] = refl
length-set_word zero w (x ∷ xs) = refl
length-set_word (suc site) w (x ∷ xs) = omega (arith, length-set_word site w xs)

Inside-append :
    (n : ℕ) (ps : List Patch) (q : Patch) → q.site ≡ n → Inside n ps → Inside (suc n) (ps ++ q ∷ [])
Inside-append n [] q e h = (omega arith, tt)
Inside-append n (p ∷ ps) q e (here, rest) = (omega arith, Inside-append n ps q e rest)

Above-append :
    (s : ℕ) (ps : List Patch) (q : Patch) → s < q.site → Above s ps → Above s (ps ++ q ∷ [])
Above-append s [] q lt h = (lt, tt)
Above-append s (p ∷ ps) q lt (here, rest) = (here, Above-append s ps q lt rest)

Rising-append : (ps : List Patch) (q : Patch) → Inside q.site ps → Rising ps → Rising (ps ++ q ∷ [])
Rising-append [] q h r = (tt, tt)
Rising-append (p ∷ ps) q (here, rest) (above, rising) =
    (Above-append p.site ps q here above, Rising-append ps q rest rising)

-- The state behind a branch.
abbrev branched : PatchKind → ℕ → Gen → Gen
branched kind lab g = record g {
  code = g.code ++ 0x14000000 ∷ [];
  patches = g.patches ++ record { kind = kind; label = lab; site = length g.code } ∷ [];
}

branched-IsSound :
    (cap : ℕ) (kind : PatchKind) (lab : ℕ) (g : Gen)
    → IsSound cap g
    → length g.code < cap
    → IsSound cap (branched kind lab g)
branched-IsSound cap kind lab g s room =
    let one_more : length (g.code ++ 0x14000000 ∷ []) ≡ suc (length g.code) =
      omega (arith, length-append g.code (0x14000000 ∷ [])) in
    let q : Patch = record { kind = kind; label = lab; site = length g.code } in
    record {
      fits = omega arith;
      depth = s.depth;
      labels = λ k at e. omega (arith, s.labels k at e);
      sites =
          subst (λ n. Inside n (g.patches ++ q ∷ [])) (sym one_more)
            (Inside-append (length g.code) g.patches q refl s.sites);
      rising = Rising-append g.patches q s.sites s.rising;
    }

abbrev Branched : ℕ → PatchKind → ℕ → Gen → Gen → Type 0
Branched cap kind lab g g' = IsSound cap g' × (g' ≡ branched kind lab g)

emit_br-Branched :
    (cap : ℕ) (kind : PatchKind) (lab : ℕ) (g : Gen)
    → IsSound cap g
    → Ensures (Branched cap kind lab g) (emit_br cap kind lab g)
unfolding emit_br
emit_br-Branched cap kind lab g s =
    Ensures-guard (Branched cap kind lab g) (leb cap (length g.code)) Error.space _ tt λ room.
      Ensures-guard (Branched cap kind lab g) (leb max_labels lab) Error.label _ tt λ known.
        Ensures-guard (Branched cap kind lab g) (leb max_patches (length g.patches)) Error.space _
          tt λ few. (branched-IsSound cap kind lab g s (ground arith), refl)

-- A branch comes behind those of `g`.
abbrev pub Adds : PatchKind → ℕ → ℕ → Gen → Gen → Type 0
Adds kind lab site g g' =
    (g'.label_at ≡ g.label_at)
    × (g'.patches ≡ g.patches ++ record { kind = kind; label = lab; site = site } ∷ [])

Branched-Adds :
    (cap : ℕ) (kind : PatchKind) (lab : ℕ) (g g' : Gen)
    → Branched cap kind lab g g'
    → Adds kind lab (length g.code) g g'
Branched-Adds cap kind lab g g' (s, e) =
    (ap (λ (x : Gen). x.label_at) e, ap (λ (x : Gen). x.patches) e)

sp_changed : (cap sp : ℕ) (g : Gen) → IsSound cap g → sp ≤ max_depth → IsSound cap (with_sp sp g)
sp_changed cap sp g s low = record {
  fits = s.fits;
  depth = low;
  labels = s.labels;
  sites = s.sites;
  rising = s.rising;
}

word_set :
    (cap sp site w : ℕ) (g : Gen)
    → IsSound cap g
    → sp ≤ max_depth
    → IsSound cap (record g { code = set_word site w g.code; sp = sp })
word_set cap sp site w g s low =
    let same = length-set_word site w g.code in
    record {
      fits = omega (arith, s.fits);
      depth = low;
      labels = λ k at e. omega (arith, s.labels k at e);
      sites = subst (λ n. Inside n g.patches) (sym same) s.sites;
      rising = s.rising;
    }

pub IsSound-longer : (cap : ℕ) (g g' : Gen) → IsSound cap g → Grows cap g g' → IsSound cap g'
IsSound-longer cap g g' s h =
    subst (λ n. IsSound cap (with_sp n g')) (sym h.same_sp)
      (IsSound-Grows cap g.sp g g' s h s.depth)

-- One word was put out.
abbrev More : ℕ → ℕ → Gen → Gen → Type 0
More cap w g g₁ =
    IsSound cap g₁
    × (length g₁.code ≡ 1 + length g.code)
    × (g₁.label_at ≡ g.label_at)
    × (g₁.patches ≡ g.patches)

emit-More : (cap w : ℕ) (g : Gen) → IsSound cap g → Ensures (More cap w g) (emit cap w g)
unfolding emit
emit-More cap w g s = Ensures-guard (More cap w g) (leb cap (length g.code)) Error.space _ tt λ e. (
  IsSound-longer cap g (more_code (w ∷ []) g) s (more_code-Grows cap (w ∷ []) g (ground arith)),
  omega (arith, length-append g.code (w ∷ [])),
  refl,
  refl,
)

-- A byte is read, and a branch to it stands at `site`.
abbrev pub Jumps : PatchKind → ℕ → List ℕ → Gen → List ℕ × Gen → Type 0
Jumps kind site bs g r = (id : ℕ) × (bs ≡ id ∷ r.0) × Adds kind id site g r.1

abbrev JumpsNext : ℕ → PatchKind → ℕ → List ℕ → Gen → List ℕ × Gen → Type 0
JumpsNext cap kind site bs g r = (r.0 ≡ drop 1 bs) × IsSound cap r.1 × Jumps kind site bs g r

module _ (cap : ℕ) where
  pub gen_jmp-Jumps :
      (bs : List ℕ) (g : Gen)
      → IsSound cap g
      → Ensures (JumpsNext cap PatchKind.always (length g.code) bs g) (gen_jmp cap bs g)
  unfolding gen_jmp take_byte
  gen_jmp-Jumps [] g s = tt
  gen_jmp-Jumps (id ∷ rest) g s =
      Ensures-bind (Branched cap PatchKind.always id g)
        (JumpsNext cap PatchKind.always (length g.code) (id ∷ rest) g)
        (emit_br cap PatchKind.always id g) _ (emit_br-Branched cap PatchKind.always id g s)
        λ g' h. (
          refl,
          sp_changed cap g.sp g' h.0 s.depth,
          (id, refl, Branched-Adds cap PatchKind.always id g g' h),
        )

  pub gen_jump_on-Jumps :
      (kind : PatchKind) (word : ℕ) (bs : List ℕ) (g : Gen)
      → IsSound cap g
      → Ensures (JumpsNext cap kind (1 + length g.code) bs g) (gen_jump_on cap kind word bs g)
  unfolding gen_jump_on take_byte
  gen_jump_on-Jumps kind word [] g s = tt
  gen_jump_on-Jumps kind word (id ∷ rest) g s =
      Ensures-guard (JumpsNext cap kind (1 + length g.code) (id ∷ rest) g) (ltb g.sp 1) Error.depth
        _ tt
        λ e.
          Ensures-bind (More cap (a64_mov_x 16 (top_reg g)) g)
            (JumpsNext cap kind (1 + length g.code) (id ∷ rest) g)
            (emit cap (a64_mov_x 16 (top_reg g)) g) _ (emit-More cap (a64_mov_x 16 (top_reg g)) g s)
            λ g₁ (s₁, longer, labels, patches).
              Ensures-bind (Branched cap kind id g₁)
                (JumpsNext cap kind (1 + length g.code) (id ∷ rest) g) (emit_br cap kind id g₁) _
                (emit_br-Branched cap kind id g₁ s₁)
                λ g₂ h₂.
                  let (same, added) = Branched-Adds cap kind id g₁ g₂ h₂ in
                  (
                    refl,
                    word_set cap (g.sp - 1) (length g₁.code) word g₂ h₂.0 (omega (arith, s.depth)),
                    (
                      id,
                      refl,
                      (
                        same ∙ labels,
                        added
                            ∙ ap₂
                                (λ (ps : List Patch) (n : ℕ).
                                  ps ++ record { kind = kind; label = id; site = n } ∷ [])
                                patches longer,
                      ),
                    ),
                  )
