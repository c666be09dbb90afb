-- ===== src/Jit/Bounds/Calls.antt =====
-- The loads and stores, the calls and the returns of hc_ir_compile, src/hc_ir.h.
use zealos_aarch64_bringup.Base.{
  ℕ, ◌+◌, ◌-◌, ◌≡◌, refl, ◌∙◌, ap, [], drop, arith, Bool, true, false, ◌||◌, List, ◌∷◌, ◌++◌, ltb,
  leb,
}
use zealos_aarch64_bringup.Jit.Result.{Error, Result, ok, err, ◌>>=◌}
use zealos_aarch64_bringup.Jit.Encode.{a64_blr, a64_emit_imm64}
use zealos_aarch64_bringup.Jit.Ops.{Compare, FloatArith, Width}
use zealos_aarch64_bringup.Jit.Compile.{
  Patch, max_depth, mem_words, Places, Gen, emits, emit_block, emit_slot_addr, emit_enter,
  emit_leave, leave_frame, reg_at,
}
use zealos_aarch64_bringup.Jit.Memory.{
  AddressBase, emit_addr, gen_addr, gen_enter, gen_inarg, gen_ld, gen_leave, gen_load, gen_st,
  gen_store,
}
use zealos_aarch64_bringup.Jit.Calls.{
  gen_call, gen_float_arith, gen_float_compare, gen_ret, move_args, restore_locals, save_locals,
  save_stack,
}
use zealos_aarch64_bringup.Jit.Bounds.{
  Ensures, Ensures-bind, Ensures-guard, Ensures-later, IsSound, Grows, Grows-trans, emit-Grows,
  emits-Grows, emit_block-Grows, emit_slot_addr-Grows, emit_abs_addr-Grows, emit_enter-Grows,
  emit_leave-Grows, leave_frame-Grows,
}
use zealos_aarch64_bringup.Jit.Bounds.Cases.{Next, Grows-Extends, after_byte, after_u64, done-Next}
use zealos_aarch64_bringup.Jit.Bounds.Jumps.{IsSound-longer}

emit_addr-Grows :
    (base : AddressBase) (at : Places) (cap rd slot : ℕ) (g : Gen)
    → Ensures (Grows cap g) (emit_addr base at cap rd slot g)
unfolding emit_addr
emit_addr-Grows AddressBase.frame at cap rd slot g = emit_slot_addr-Grows at cap rd slot g
emit_addr-Grows AddressBase.absolute at cap rd slot g = emit_abs_addr-Grows at cap rd slot g

-- One piece of code and then another.
and_then :
    (cap : ℕ) (g : Gen) (r : Result Gen) (f : Gen → Result Gen)
    → Ensures (Grows cap g) r
    → ((g₁ : Gen) → Grows cap g g₁ → Ensures (Grows cap g₁) (f g₁))
    → Ensures (Grows cap g) (r >>= f)
and_then cap g r f h k =
    Ensures-bind (Grows cap g) (Grows cap g) r f h
      λ g₁ h₁. Ensures-later cap g g₁ h₁ (f g₁) (k g₁ h₁)

-- The change of `framed` that HC_ENTER and HC_LEAVE make.
framed-IsSound :
    (cap : ℕ) (b : Bool) (g : Gen) → IsSound cap g → IsSound cap (record g { framed = b })
framed-IsSound cap b g s = record {
  fits = s.fits;
  depth = s.depth;
  labels = s.labels;
  sites = s.sites;
  rising = s.rising;
}

drop_one_more : (bs : List ℕ) → drop 1 (drop 1 bs) ≡ drop 2 bs
drop_one_more [] = refl
drop_one_more (b ∷ bs) = refl

Next-later :
    (cap n : ℕ) (bs : List ℕ) (g g₁ : Gen)
    → Grows cap g g₁
    → (r : Result (List ℕ × Gen)) → Ensures (Next cap n bs g₁) r
    → Ensures (Next cap n bs g) r
Next-later cap n bs g g₁ h (ok r) (read, s, (same, more, e)) =
    (read, s, (same ∙ h.same_labels, more, e ∙ ap (λ (ps : List Patch). ps ++ more) h.same_patches))
Next-later cap n bs g g₁ h (err e) k = k

module _ (at : Places) (cap : ℕ) (bs : List ℕ) (g : Gen) (s : IsSound cap g) where
  pub gen_load-Next : (w : Width) → Ensures (Next cap 0 bs g) (gen_load cap w bs g)
  unfolding gen_load
  gen_load-Next w =
      Ensures-guard (Next cap 0 bs g) (ltb g.sp 1) Error.depth _ tt
        λ e. done-Next cap 0 bs bs g.sp g _ s (emit-Grows cap _ g) s.depth refl

  pub gen_store-Next : (w : Width) → Ensures (Next cap 0 bs g) (gen_store cap w bs g)
  unfolding gen_store
  gen_store-Next w =
      Ensures-guard (Next cap 0 bs g) (ltb g.sp 2) Error.depth _ tt λ e.
        done-Next cap 0 bs bs (g.sp - 2) g _ s (emit-Grows cap _ g) (omega (arith, s.depth)) refl

  pub gen_enter-Next : Ensures (Next cap 1 bs g) (gen_enter at cap bs g)
  unfolding gen_enter
  gen_enter-Next = after_byte (Next cap 1 bs g) bs _ λ nwords rest read.
      Ensures-bind (Grows cap g) (Next cap 1 bs g) (emit_enter at cap nwords g) _
        (emit_enter-Grows at cap nwords g)
        λ g' h.
          (read, framed-IsSound cap true g' (IsSound-longer cap g g' s h), Grows-Extends cap g g' h)

  pub gen_leave-Next : Ensures (Next cap 0 bs g) (gen_leave at cap bs g)
  unfolding gen_leave
  gen_leave-Next =
      Ensures-bind (Grows cap g) (Next cap 0 bs g) (emit_leave at cap g) _
        (emit_leave-Grows at cap g)
        λ g' h. (
          refl,
          framed-IsSound cap false g' (IsSound-longer cap g g' s h),
          Grows-Extends cap g g' h,
        )

  pub gen_addr-Next : (base : AddressBase) → Ensures (Next cap 1 bs g) (gen_addr base at cap bs g)
  unfolding gen_addr
  gen_addr-Next base = after_byte (Next cap 1 bs g) bs _ λ slot rest read.
      Ensures-guard (Next cap 1 bs g) (leb mem_words slot || leb max_depth g.sp) Error.local _ tt
        λ e.
          done-Next cap 1 bs rest (g.sp + 1) g _ s
            (emit_addr-Grows base at cap (reg_at g.sp) slot g) (ground arith) read

  pub gen_ld-Next : (base : AddressBase) → Ensures (Next cap 1 bs g) (gen_ld base at cap bs g)
  unfolding gen_ld
  gen_ld-Next base = after_byte (Next cap 1 bs g) bs _ λ slot rest read.
      Ensures-guard (Next cap 1 bs g) (leb mem_words slot || leb max_depth g.sp) Error.local _ tt
        λ e.
          done-Next cap 1 bs rest (g.sp + 1) g _ s
            (and_then cap g (emit_addr base at cap (reg_at g.sp) slot g) _
              (emit_addr-Grows base at cap (reg_at g.sp) slot g) λ g₁ h₁. emit-Grows cap _ g₁)
            (ground arith) read

  pub gen_st-Next : (base : AddressBase) → Ensures (Next cap 1 bs g) (gen_st base at cap bs g)
  unfolding gen_st
  gen_st-Next base = after_byte (Next cap 1 bs g) bs _ λ slot rest read.
      Ensures-guard (Next cap 1 bs g) (leb mem_words slot || ltb g.sp 1) Error.local _ tt λ e.
        done-Next cap 1 bs rest (g.sp - 1) g _ s
          (and_then cap g (emit_addr base at cap 16 slot g) _
            (emit_addr-Grows base at cap 16 slot g) λ g₁ h₁. emit-Grows cap _ g₁)
          (omega (arith, s.depth)) read

  pub gen_inarg-Next : Ensures (Next cap 2 bs g) (gen_inarg at cap bs g)
  unfolding gen_inarg
  gen_inarg-Next = after_byte (Next cap 2 bs g) bs _ λ slot rest₁ read₁.
      after_byte (Next cap 2 bs g) rest₁ _ λ regno rest₂ read₂.
        Ensures-guard (Next cap 2 bs g) (leb mem_words slot || ltb 6 regno) Error.local _ tt λ e.
          done-Next cap 2 bs rest₂ g.sp g _ s
            (and_then cap g (emit_slot_addr at cap 16 slot g) _
              (emit_slot_addr-Grows at cap 16 slot g) λ g₁ h₁. emit-Grows cap _ g₁)
            s.depth (read₂ ∙ ap (drop 1) read₁ ∙ drop_one_more bs)

  pub gen_float_arith-Next :
      (o : FloatArith) → Ensures (Next cap 0 bs g) (gen_float_arith cap o bs g)
  unfolding gen_float_arith
  gen_float_arith-Next o = Ensures-guard (Next cap 0 bs g) (ltb g.sp 2) Error.depth _ tt λ e.
      done-Next cap 0 bs bs (g.sp - 1) g _ s (emits-Grows cap _ g s.fits) (omega (arith, s.depth))
        refl

  pub gen_float_compare-Next :
      (o : Compare) → Ensures (Next cap 0 bs g) (gen_float_compare cap o bs g)
  unfolding gen_float_compare
  gen_float_compare-Next o = Ensures-guard (Next cap 0 bs g) (ltb g.sp 2) Error.depth _ tt λ e.
      done-Next cap 0 bs bs (g.sp - 1) g _ s (emits-Grows cap _ g s.fits) (omega (arith, s.depth))
        refl

  pub gen_ret-Next : Ensures (Next cap 0 bs g) (gen_ret at cap bs g)
  unfolding gen_ret
  gen_ret-Next =
      Ensures-bind (Grows cap g) (Next cap 0 bs g) (leave_frame at cap g) _
        (leave_frame-Grows at cap g s.fits)
        λ g₁ h₁. Next-later cap 0 bs g g₁ h₁ _ (
          done-Next cap 0 bs bs 0 g₁ _ (IsSound-longer cap g g₁ s h₁) (emits-Grows cap _ g₁ h₁.fits)
            (omega arith) refl)

  pub gen_call-Next : (argc : ℕ) → Ensures (Next cap 8 bs g) (gen_call cap argc bs g)
  unfolding gen_call a64_emit_imm64
  gen_call-Next argc = after_u64 (Next cap 8 bs g) bs _ λ fn rest read.
      Ensures-guard (Next cap 8 bs g) (ltb g.sp argc) Error.depth _ tt λ enough.
        Ensures-bind (Grows cap g) (Next cap 8 bs g) (emits cap (move_args argc g.sp) g) _
          (emits-Grows cap _ g s.fits)
          λ g₁ h₁.
            Ensures-bind (Grows cap g₁) (Next cap 8 bs g)
              (emits cap (save_stack (g.sp - argc) ++ save_locals) g₁) _
              (emits-Grows cap _ g₁ h₁.fits)
              λ g₂ h₂.
                Ensures-bind (Grows cap g₂) (Next cap 8 bs g)
                  (emit_block cap 4 (a64_emit_imm64 16 fn) g₂) _
                  (emit_block-Grows cap 4 (a64_emit_imm64 16 fn) g₂ (omega arith))
                  λ g₃ h₃.
                    Ensures-bind (Grows cap g₃) (Next cap 8 bs g)
                      (emits cap (a64_blr 16 ∷ restore_locals) g₃) _ (emits-Grows cap _ g₃ h₃.fits)
                      λ g₄ h₄.
                        Ensures-guard (Next cap 8 bs g) (leb max_depth (g.sp - argc)) Error.depth _
                          tt
                          λ shallow.
                            let h =
                              Grows-trans cap g g₃ g₄
                                (Grows-trans cap g g₂ g₃ (Grows-trans cap g g₁ g₂ h₁ h₂) h₃) h₄ in
                            Next-later cap 8 bs g g₄ h _ (
                              done-Next cap 8 bs rest (g.sp - argc + 1) g₄ _
                                (IsSound-longer cap g g₄ s h) (emits-Grows cap _ g₄ h₄.fits)
                                (ground arith) read)
