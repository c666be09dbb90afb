-- ===== src/Jit/Bounds.antt =====
-- What every round of hc_ir_compile, src/hc_ir.h, keeps: the code stays inside the buffer, and the
-- labels and the branches inside the code.
pub mod Cases
pub mod Calls
pub mod Switch
pub mod Loop
pub mod Jumps
pub mod Branches
pub mod Reached
pub mod Labels
pub mod Targets
use zealos_aarch64_bringup.Base.{
  ℕ, zero, suc, ◌+◌, ◌≤◌, ◌<◌, ◌≡◌, refl, ap, ◌∙◌, arith, inl, inr, Bool-cases, Bool, true, false,
  Option, some, List, [], ◌∷◌, ◌++◌, ltb, leb, ◌==◌, if◌then◌else◌, length, length-append,
}
use zealos_aarch64_bringup.Jit.Result.{Error, Result, ok, err, ◌>>=◌}
use zealos_aarch64_bringup.Jit.Encode.{a64_emit_imm64}
use zealos_aarch64_bringup.Jit.Compile.{
  max_depth, PatchKind, Patch, Places, Gen, more_code, with_sp, emit, emits, emit_block,
  emit_slot_addr, emit_abs_addr, emit_enter, emit_leave, leave_frame, slot_addr_words, enter_words,
  leave_words,
}

-- An error that the source knows.
abbrev pub IsReal : Error → Type 0
IsReal Error.stuck = ⊥
IsReal e = Unit {0}

abbrev pub Ensures {ℓ} : {A : Type ℓ} → (A → Type 0) → Result A → Type 0
Ensures P (ok a) = P a
Ensures P (err e) = IsReal e

module _ {ℓ ℓ'} {A : Type ℓ} {B : Type ℓ'} where
  pub Ensures-bind :
      (P : A → Type 0) (Q : B → Type 0) (r : Result A) (f : A → Result B)
      → Ensures P r
      → ((a : A) → P a → Ensures Q (f a))
      → Ensures Q (r >>= f)
  Ensures-bind P Q (ok a) f h k = k a h
  Ensures-bind P Q (err e) f h k = h

pub Ensures-guard {ℓ} :
    {A : Type ℓ} (P : A → Type 0) (b : Bool) (e : Error) (r : Result A)
    → IsReal e
    → (b ≡ false → Ensures P r)
    → Ensures P (if b then err e else r)
Ensures-guard P true e r real h = real
Ensures-guard P false e r real h = h refl

-- Every branch so far is before word `n`, and each behind the one before it.
abbrev pub Inside : ℕ → List Patch → Type 0
Inside n [] = Unit {0}
Inside n (p ∷ ps) = (p.site < n) × Inside n ps

abbrev pub Above : ℕ → List Patch → Type 0
Above s [] = Unit {0}
Above s (q ∷ qs) = (s < q.site) × Above s qs

abbrev pub Rising : List Patch → Type 0
Rising [] = Unit {0}
Rising (p ∷ ps) = Above p.site ps × Rising ps

pub record IsSound (cap : ℕ) (g : Gen) : Type 0 where
  pub fits : length g.code ≤ cap
  pub depth : g.sp ≤ max_depth
  pub labels : (k at : ℕ) → g.label_at k ≡ some at → at ≤ length g.code
  pub sites : Inside (length g.code) g.patches
  pub rising : Rising g.patches

-- Words were put out, and nothing else was changed.
pub record Grows (cap : ℕ) (g g' : Gen) : Type 0 where
  pub longer : length g.code ≤ length g'.code
  pub fits : length g'.code ≤ cap
  pub same_labels : g'.label_at ≡ g.label_at
  pub same_patches : g'.patches ≡ g.patches
  pub same_sp : g'.sp ≡ g.sp

pub Grows-self : (cap : ℕ) (g : Gen) → length g.code ≤ cap → Grows cap g g
Grows-self cap g h = record {
  longer = omega arith;
  fits = h;
  same_labels = refl;
  same_patches = refl;
  same_sp = refl;
}

pub Grows-trans : (cap : ℕ) (g₁ g₂ g₃ : Gen) → Grows cap g₁ g₂ → Grows cap g₂ g₃ → Grows cap g₁ g₃
Grows-trans cap g₁ g₂ g₃ h k = record {
  longer = omega (arith, h.longer, k.longer);
  fits = k.fits;
  same_labels = k.same_labels ∙ h.same_labels;
  same_patches = k.same_patches ∙ h.same_patches;
  same_sp = k.same_sp ∙ h.same_sp;
}

pub Ensures-later :
    (cap : ℕ) (g g₁ : Gen)
    → Grows cap g g₁
    → (r : Result Gen) → Ensures (Grows cap g₁) r
    → Ensures (Grows cap g) r
Ensures-later cap g g₁ h (ok g₂) k = Grows-trans cap g g₁ g₂ h k
Ensures-later cap g g₁ h (err e) k = k

pub more_code-Grows :
    (cap : ℕ) (ws : List ℕ) (g : Gen)
    → length g.code + length ws ≤ cap
    → Grows cap g (more_code ws g)
more_code-Grows cap ws g room = record {
  longer = omega (arith, length-append g.code ws);
  fits = omega (arith, length-append g.code ws);
  same_labels = refl;
  same_patches = refl;
  same_sp = refl;
}

pub emit-Grows : (cap w : ℕ) (g : Gen) → Ensures (Grows cap g) (emit cap w g)
unfolding emit
emit-Grows cap w g =
    Ensures-guard (Grows cap g) (leb cap (length g.code)) Error.space _ tt
      λ e. more_code-Grows cap (w ∷ []) g (ground arith)

pub emits-Grows :
    (cap : ℕ) (ws : List ℕ) (g : Gen) → length g.code ≤ cap → Ensures (Grows cap g) (emits cap ws g)
unfolding emits
emits-Grows cap [] g h = Grows-self cap g h
emits-Grows cap (w ∷ ws) g h =
    Ensures-bind (Grows cap g) (Grows cap g) (emit cap w g) (emits cap ws) (emit-Grows cap w g)
      λ g₁ h₁. Ensures-later cap g g₁ h₁ (emits cap ws g₁) (emits-Grows cap ws g₁ h₁.fits)

pub emit_block-Grows :
    (cap need : ℕ) (ws : List ℕ) (g : Gen)
    → length ws ≤ need
    → Ensures (Grows cap g) (emit_block cap need ws g)
unfolding emit_block
emit_block-Grows cap need ws g short =
    Ensures-guard (Grows cap g) (ltb cap (length g.code + need)) Error.space _ tt
      λ e. more_code-Grows cap ws g (ground arith)

pub emit_slot_addr-Grows :
    (at : Places) (cap rd slot : ℕ) (g : Gen)
    → Ensures (Grows cap g) (emit_slot_addr at cap rd slot g)
unfolding emit_slot_addr a64_emit_imm64
emit_slot_addr-Grows at cap rd slot g =
    Ensures-guard (Grows cap g) (rd == 17) Error.space _ tt
      λ e. emit_block-Grows cap 12 (slot_addr_words at rd slot) g (ground arith)

pub emit_abs_addr-Grows :
    (at : Places) (cap rd slot : ℕ) (g : Gen)
    → Ensures (Grows cap g) (emit_abs_addr at cap rd slot g)
unfolding emit_abs_addr a64_emit_imm64
emit_abs_addr-Grows at cap rd slot g = emit_block-Grows cap 8 _ g (omega arith)

pub emit_enter-Grows :
    (at : Places) (cap nwords : ℕ) (g : Gen) → Ensures (Grows cap g) (emit_enter at cap nwords g)
unfolding emit_enter a64_emit_imm64
emit_enter-Grows at cap nwords g = emit_block-Grows cap 16 (enter_words at nwords) g (ground arith)

pub emit_leave-Grows :
    (at : Places) (cap : ℕ) (g : Gen) → Ensures (Grows cap g) (emit_leave at cap g)
unfolding emit_leave a64_emit_imm64
emit_leave-Grows at cap g = emit_block-Grows cap 12 (leave_words at) g (omega arith)

pub leave_frame-Grows :
    (at : Places) (cap : ℕ) (g : Gen)
    → length g.code ≤ cap
    → Ensures (Grows cap g) (leave_frame at cap g)
unfolding leave_frame
leave_frame-Grows at cap g h = elim (Bool-cases g.framed) [
  | inl e ↦ simp e (emit_leave-Grows at cap g)
  | inr e ↦ simp e (Grows-self cap g h)
]
