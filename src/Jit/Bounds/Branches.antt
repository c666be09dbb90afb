-- ===== src/Jit/Bounds/Branches.antt =====
-- The offsets that hc_ir_compile, src/hc_ir.h, puts into the branches that it has noted.
use zealos_aarch64_bringup.Base.{
  ℕ, zero, suc, ◌+◌, ◌-◌, ◌*◌, ◌/◌, ◌%◌, ◌^◌, ◌≤◌, ◌<◌, ◌≡◌, refl, sym, ◌∙◌, arith, ap, subst, inl,
  inr, Bool-cases, Option-cases, Option, some, List, [], ◌∷◌, bit_or, bit_or_high, get_or, ltb,
  if◌then◌else◌, length,
}
use zealos_aarch64_bringup.Jit.Result.{Result, ok, err, ◌>>=◌}
use zealos_aarch64_bringup.Jit.Encode.{with_rd, a64_b, a64_cbnz, a64_cbz, a64_movz_x}
use zealos_aarch64_bringup.Jit.Encode.Fields.{bit_or_free, with_rd-free}
use zealos_aarch64_bringup.Jit.Compile.{PatchKind, Patch, Places, Gen, emits, leave_frame, set_word}
use zealos_aarch64_bringup.Jit.Calls.{epilogue}
use zealos_aarch64_bringup.Jit.Step.{
  branch_word, compile, finish, loop, offset_of, patch_all, empty_gen,
}
use zealos_aarch64_bringup.Jit.Bounds.{
  Ensures, Inside, Above, Rising, IsSound, Grows, emits-Grows, leave_frame-Grows,
}
use zealos_aarch64_bringup.Jit.Bounds.Jumps.{IsSound-longer, length-set_word}
use zealos_aarch64_bringup.Jit.Bounds.Loop.{loop-IsSound, empty_gen-IsSound}

-- The processor adds a signed field of `w` bits to the place of the branch.
abbrev pub GoesTo : ℕ → ℕ → ℕ → ℕ → Type 0
GoesTo w field site target = site + field ≡ target + (if ltb field (2 ^ (w - 1)) then 0 else 2 ^ w)

-- B, CBZ and CBNZ of x16, with their fields.
abbrev pub Lands : PatchKind → ℕ → ℕ → ℕ → Type 0
Lands PatchKind.always site target word =
    (word / 2 ^ 26 ≡ 5) × GoesTo 26 (word % 2 ^ 26) site target
Lands PatchKind.if_zero site target word =
    (word / 2 ^ 24 ≡ 0xb4) × (word % 32 ≡ 16) × GoesTo 19 (word / 2 ^ 5 % 2 ^ 19) site target
Lands PatchKind.if_not_zero site target word =
    (word / 2 ^ 24 ≡ 0xb5) × (word % 32 ≡ 16) × GoesTo 19 (word / 2 ^ 5 % 2 ^ 19) site target

-- A conditional branch as a sum.
conditional-sum :
    (c off : ℕ)
    → c % 2 ^ 24 ≡ 0
    → with_rd (bit_or c (off % 2 ^ 19 * 2 ^ 5)) 16 ≡ c + off % 2 ^ 19 * 2 ^ 5 + 16
conditional-sum c off low =
    ap (λ (t : ℕ). with_rd t 16)
      (bit_or_free 5 19 c (off % 2 ^ 19) (omega arith) (omega arith) (omega arith))
    ∙ with_rd-free (c + off % 2 ^ 19 * 2 ^ 5) 16 (omega arith)
    ∙ omega arith

pub branch_word-Lands :
    (kind : PatchKind) (site target : ℕ)
    → site < 2 ^ 18
    → target < 2 ^ 18
    → Lands kind site target (branch_word kind (offset_of target site))
unfolding branch_word a64_b a64_cbz a64_cbnz
branch_word-Lands PatchKind.always site target s t =
    let off = offset_of target site in
    let sum : bit_or 0x14000000 (off % 2 ^ 26) ≡ 0x14000000 + off % 2 ^ 26 =
      bit_or_high 26 5 (off % 2 ^ 26) (omega arith) in
    (omega arith, ground arith)
branch_word-Lands PatchKind.if_zero site target s t =
    let sum = conditional-sum 0xb4000000 (offset_of target site) refl in
    (omega arith, omega arith, ground arith)
branch_word-Lands PatchKind.if_not_zero site target s t =
    let sum = conditional-sum 0xb5000000 (offset_of target site) refl in
    (omega arith, omega arith, ground arith)

get_or-set_word_self :
    (site w : ℕ) (code : List ℕ) → site < length code → get_or (set_word site w code) site 0 ≡ w
unfolding set_word
get_or-set_word_self site w [] h = absurd (omega arith)
get_or-set_word_self zero w (x ∷ xs) h = refl
get_or-set_word_self (suc site) w (x ∷ xs) h = get_or-set_word_self site w xs (omega arith)

get_or-set_word_ne :
    (site w s : ℕ) (code : List ℕ) → s < site → get_or (set_word site w code) s 0 ≡ get_or code s 0
unfolding set_word
get_or-set_word_ne site w s [] h = refl
get_or-set_word_ne zero w s (x ∷ xs) h = absurd (omega arith)
get_or-set_word_ne (suc site) w zero (x ∷ xs) h = refl
get_or-set_word_ne (suc site) w (suc s) (x ∷ xs) h = get_or-set_word_ne site w s xs (omega arith)

-- Each branch stands in the code and goes to the place of its label in it.
abbrev pub Resolved : List ℕ → (ℕ → Option ℕ) → List Patch → Type 0
Resolved code label_at [] = Unit {0}
Resolved code label_at (p ∷ ps) =
    ((target : ℕ) × (label_at p.label ≡ some target)
      × (target ≤ length code)
      × (p.site < length code)
      × Lands p.kind p.site target (get_or code p.site 0))
    × Resolved code label_at ps

-- The words before the branches are as they were.
unchanged :
    (ps : List Patch) (label_at : ℕ → Option ℕ) (code code' : List ℕ) (s : ℕ)
    → Above s ps
    → patch_all ps label_at code ≡ ok code'
    → get_or code' s 0 ≡ get_or code s 0
unfolding patch_all
unchanged [] label_at code code' s h e =
    let same : code ≡ code' = ground arith in ap (λ (c : List ℕ). get_or c s 0) (sym same)
unchanged (p ∷ ps) label_at code code' s (here, above) e = elim (Option-cases (label_at p.label)) [
  | inl missing ↦ absurd (ground (arith, missing))
  | inr (target, known_at) ↦
      let w = branch_word p.kind (offset_of target p.site) in
      let later : patch_all ps label_at (set_word p.site w code) ≡ ok code' =
        rw (known_at, patch_all) at e in
      unchanged ps label_at (set_word p.site w code) code' s above later
      ∙ get_or-set_word_ne p.site w s code here
]

patch_all-Resolved :
    (ps : List Patch) (label_at : ℕ → Option ℕ) (code code' : List ℕ)
    → length code < 2 ^ 18
    → ((k at : ℕ) → label_at k ≡ some at → at ≤ length code)
    → Inside (length code) ps
    → Rising ps
    → patch_all ps label_at code ≡ ok code'
    → (length code' ≡ length code) × Resolved code' label_at ps
unfolding patch_all
patch_all-Resolved [] label_at code code' small labels inside rising e =
    let same : code ≡ code' = ground arith in (ap (λ (c : List ℕ). length c) (sym same), tt)
patch_all-Resolved (p ∷ ps) label_at code code' small labels (here, inside) (above, rising) e =
    elim (Option-cases (label_at p.label)) [
      | inl missing ↦ absurd (ground (arith, missing))
      | inr (target, known_at) ↦
          let w = branch_word p.kind (offset_of target p.site) in
          let code₁ = set_word p.site w code in
          let same = length-set_word p.site w code in
          let later : patch_all ps label_at code₁ ≡ ok code' = rw (known_at, patch_all) at e in
          let (long, resolved) =
            patch_all-Resolved ps label_at code₁ code' (omega arith)
              (λ k at known. omega (arith, labels k at known))
              (subst (λ n. Inside n ps) (sym same) inside) rising later in
          let word : get_or code' p.site 0 ≡ w =
            unchanged ps label_at code₁ code' p.site above later
            ∙ get_or-set_word_self p.site w code here in
          let place = labels p.label target known_at in
          (
            long ∙ same,
            (
              (
                target,
                known_at,
                omega arith,
                omega arith,
                subst (Lands p.kind p.site target) (sym word)
                    (branch_word-Lands p.kind p.site target (omega arith) (omega arith)),
              ),
              resolved,
            ),
          )
    ]

pub bind-ok :
    {A : Type 0} {B : Type 0} (r : Result A) (f : A → Result B) (b : B)
    → (r >>= f) ≡ ok b
    → (a : A) × (r ≡ ok a) × (f a ≡ ok b)
bind-ok (ok a) f b e = (a, refl, e)
bind-ok (err x) f b e = absurd (ground arith)

-- Where hc_ir_compile makes code in a buffer of less than 2^18 words, each branch that its loop has
-- noted is a branch instruction in the code, and goes to the word that the loop has noted for its
-- label.
pub compile-Resolved :
    (at : Places) (bc : List ℕ) (cap : ℕ) (code : List ℕ)
    → cap < 2 ^ 18
    → compile at bc cap ≡ ok code
    → (g : Gen) × (loop (suc (length bc)) at cap bc empty_gen ≡ ok g)
      × Resolved code g.label_at g.patches
unfolding compile finish
compile-Resolved at bc cap code small e = elim (Bool-cases (ltb cap 3)) [
  | inl tiny ↦ absurd (ground (arith, tiny))
  | inr room ↦
      let made : (loop (suc (length bc)) at cap bc empty_gen >>= finish at cap) ≡ ok code =
        rw room at e in
      let (g, looped, finished) =
        bind-ok (loop (suc (length bc)) at cap bc empty_gen) (finish at cap) code made in
      let s : IsSound cap g = subst (Ensures (IsSound cap)) looped (
        loop-IsSound (suc (length bc)) at cap bc empty_gen (omega arith)
          (empty_gen-IsSound cap (ground arith))) in
      let (g₁, left, rest) = bind-ok (leave_frame at cap g) _ code finished in
      let (g₂, ended, patched) = bind-ok (emits cap (a64_movz_x 0 0 0 ∷ epilogue) g₁) _ code rest in
      let h₁ : Grows cap g g₁ =
        subst (Ensures (Grows cap g)) left (leave_frame-Grows at cap g s.fits) in
      let h₂ : Grows cap g₁ g₂ =
        subst (Ensures (Grows cap g₁)) ended
          (emits-Grows cap (a64_movz_x 0 0 0 ∷ epilogue) g₁ h₁.fits) in
      let s₂ : IsSound cap g₂ = IsSound-longer cap g₁ g₂ (IsSound-longer cap g g₁ s h₁) h₂ in
      let fine =
        (patch_all-Resolved g₂.patches g₂.label_at g₂.code code (omega (arith, h₂.fits)) s₂.labels
          s₂.sites s₂.rising patched).1 in
      (
        g,
        looped,
        subst (λ l. Resolved code l g.patches) (h₂.same_labels ∙ h₁.same_labels)
            (subst (Resolved code g₂.label_at) (h₂.same_patches ∙ h₁.same_patches) fine),
      )
]
