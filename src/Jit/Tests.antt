-- ===== src/Jit/Tests.antt =====
-- Runs of src/a64_emit.h and src/hc_ir.h, and the theorems on them.
use zealos_aarch64_bringup.Base.{
  ℕ, ◌+◌, ◌≤◌, ◌<◌, ◌≡◌, refl, arith, Option, none, some, List, [], ◌∷◌, ◌++◌, length, ◌==◌,
  if◌then◌else◌, get_or, drop,
}
use zealos_aarch64_bringup.Jit.Step.{compile, loop, finish, patch_all, branch_word, step}
use zealos_aarch64_bringup.Jit.Compile.{
  PatchKind, Places, leave_frame, emit, emits, emit_block, emit_br, set_word,
}
use zealos_aarch64_bringup.Jit.Ops.{Arith, Op, op_of}
use zealos_aarch64_bringup.Jit.Stack.{
  take_byte, read_le, read_u64, gen_label, gen_jmp, gen_jump_on, gen_ld_local, gen_imm64, gen_swap,
  gen_drop, gen_arith, arith_words, gen_st_local,
}
use zealos_aarch64_bringup.Jit.Calls.{gen_ret}
use zealos_aarch64_bringup.Jit.Pack.{pack_call, pack-read, pack_imm64, pack_u8op}
use zealos_aarch64_bringup.Jit.Encode.{
  a64_emit_imm64, a64_movz_x, a64_movk_x, a64_mov_x, a64_stp_pre, a64_ldp_post, a64_ret, a64_b,
  a64_cbz, a64_mul_x, a64_add_x_reg,
}
use zealos_aarch64_bringup.Jit.Machine.{
  Machine, put_reg, run, decode, class_of, read_class, exec, alu_value,
}
use zealos_aarch64_bringup.Jit.Result.{Error, Result, ok, err}
use zealos_aarch64_bringup.Jit.Encode.Constants.{run-a64_emit_imm64}
use zealos_aarch64_bringup.Jit.Bounds.{Ensures}
use zealos_aarch64_bringup.Jit.Bounds.Loop.{compile-fits}
use zealos_aarch64_bringup.Jit.Bounds.Branches.{Lands}
use zealos_aarch64_bringup.Jit.Bounds.Reached.{Begins, first, after}
use zealos_aarch64_bringup.Jit.Bounds.Targets.{ComesTo, label_bytes, compile-Lands}
use zealos_aarch64_bringup.Jit.Ir.{Instr, bytecode, eval, eval_all}
use zealos_aarch64_bringup.Jit.Ir.Frame.{Kept}
use zealos_aarch64_bringup.Jit.Ir.Correct.{run-compile}

abbrev places : Places
places = record { fp = 0x1000; alloc = 0x1008; mem = 0x2000 }

abbrev idle : Machine
idle = record { regs = λ k. k; flags = (0, 0); frames = [] }

-- (40 + 2) * 3 with the sum kept in a local
abbrev product : List Instr
product =
    Instr.imm 40
    ∷ (Instr.imm 2
        ∷ (Instr.arith Arith.add
            ∷ (Instr.st_local 1
                ∷ (Instr.imm 3
                    ∷ (Instr.ld_local 1 ∷ (Instr.swap ∷ (Instr.arith Arith.mul ∷ [])))))))

-- A loop: `LABEL 3; LD_LOCAL 0; JZ 4; JMP 3; LABEL 4; RET`
abbrev looping : List ℕ
looping = 12 ∷ (3 ∷ (17 ∷ (0 ∷ (14 ∷ (4 ∷ (13 ∷ (3 ∷ (12 ∷ (4 ∷ (6 ∷ []))))))))))

abbrev looping_code : List ℕ
looping_code =
    0xa9bf57f4
    ∷ (0xa9bf5ff6
        ∷ (0xa9bf7ffe
            ∷ (0xaa1403e9
                ∷ (0xaa0903f0
                    ∷ (0xb4000050
                        ∷ (0x17fffffd
                            ∷ (0xd2800000
                                ∷ (0xa8c17ffe
                                    ∷ (0xa8c15ff6
                                        ∷ (0xa8c157f4
                                            ∷ (0xd65f03c0
                                                ∷ (0xd2800000
                                                    ∷ (0xa8c17ffe
                                                        ∷ (0xa8c15ff6
                                                            ∷ (0xa8c157f4
                                                            ∷ (0xd65f03c0 ∷ []))))))))))))))))

-- The code of the loop, a buffer that is too small for it, and a branch to no label.
compiled :
    (compile places looping 64 ≡ ok looping_code)
    × (compile places looping 8 ≡ err Error.space)
    × (compile places (13 ∷ (3 ∷ [])) 64 ≡ err Error.label)
unfolding compile loop finish patch_all branch_word leave_frame op_of step take_byte read_le emit
    emits emit_block emit_br set_word gen_label gen_jmp gen_jump_on gen_ld_local gen_ret gen_imm64
    gen_swap gen_drop gen_arith arith_words gen_st_local pack_imm64 pack_u8op a64_emit_imm64
    a64_movz_x a64_movk_x a64_mov_x a64_stp_pre a64_ldp_post a64_ret a64_b a64_cbz a64_mul_x
    a64_add_x_reg
compiled = (refl, refl, refl)

-- Eight values, of which the upper two are swapped and one is dropped: 8 is expected on top.
abbrev eight : List ℕ
eight = bytecode (
    Instr.imm 1
    ∷ (Instr.imm 2
        ∷ (Instr.imm 3
            ∷ (Instr.imm 4
                ∷ (Instr.imm 5
                    ∷ (Instr.imm 6
                        ∷ (Instr.imm 7 ∷ (Instr.imm 8 ∷ (Instr.swap ∷ (Instr.drop ∷ []))))))))))

abbrev returned : Result (List ℕ) → Option ℕ
returned (err e) = none
returned (ok code) = elim (run code idle) [ none ↦ none | some m ↦ some (m.regs 0) ]

eight_wrong : returned (compile places eight 64) ≡ some 7
unfolding compile loop finish patch_all branch_word leave_frame op_of step take_byte read_le emit
    emits emit_block emit_br set_word gen_label gen_jmp gen_jump_on gen_ld_local gen_ret gen_imm64
    gen_swap gen_drop gen_arith arith_words gen_st_local pack_imm64 pack_u8op a64_emit_imm64
    a64_movz_x a64_movk_x a64_mov_x a64_stp_pre a64_ldp_post a64_ret a64_b a64_cbz a64_mul_x
    a64_add_x_reg run decode class_of read_class exec alu_value
eight_wrong = refl

run-a64_emit_imm64_example :
    run (a64_emit_imm64 9 0x123456789abcdef0 ++ []) idle
    ≡ run [] (put_reg 9 0x123456789abcdef0 idle)
run-a64_emit_imm64_example =
    run-a64_emit_imm64 9 0x123456789abcdef0 idle [] (omega arith) (omega arith)

pack-read_example :
    (op_of (get_or (pack_call 2 0xffff000080001234) 0 0) ≡ some (Op.call 2))
    × (read_u64 (drop 1 (pack_call 2 0xffff000080001234) ++ 6 ∷ [])
        ≡ ok (0xffff000080001234, 6 ∷ []))
    × (op_of (get_or (pack_imm64 0xffff000080001234) 0 0) ≡ some Op.imm64)
    × (read_u64 (drop 1 (pack_imm64 0xffff000080001234) ++ 6 ∷ [])
        ≡ ok (0xffff000080001234, 6 ∷ []))
pack-read_example = pack-read 2 0xffff000080001234 (6 ∷ []) (omega arith) (omega arith)

product_value :
    eval_all product (record { stack = []; locals = λ k. idle.regs (20 + k) })
    ≡ some (record { stack = 126 ∷ []; locals = λ k. if k == 1 then 42 else idle.regs (20 + k) })
unfolding eval eval_all
product_value = refl

run-compile_example :
    (code : List ℕ) × (compile places (bytecode product) 64 ≡ ok code)
    × (m' : Machine) × (run code idle ≡ some m')
    × (m'.regs 0 ≡ 126)
    × Kept idle m'
run-compile_example =
    run-compile places 64 product idle 126 [] (λ k. if k == 1 then 42 else idle.regs (20 + k))
      (omega arith) product_value

compile-fits_example : Ensures (λ code. length code ≤ 20) (compile places looping 20)
compile-fits_example = compile-fits places looping 20

-- `JZ 4` of the loop, at word 4, goes to `LABEL 4`, at word 7.
abbrev jz_bytes : List ℕ
jz_bytes = 4 ∷ (13 ∷ (3 ∷ (12 ∷ (4 ∷ (6 ∷ [])))))

looping-Begins : Begins looping (14 ∷ jz_bytes)
unfolding op_of
looping-Begins = after (after first refl refl refl) refl refl refl

compile-Lands_example :
    (place target : ℕ) × (behind : List ℕ) × ComesTo places 64 looping (14 ∷ jz_bytes) place
    × Begins looping (label_bytes 4 behind)
    × ComesTo places 64 looping (label_bytes 4 behind) target
    × ((other : List ℕ) (t : ℕ) → ComesTo places 64 looping (label_bytes 4 other) t → t ≡ target)
    × (target ≤ length looping_code)
    × (1 + place < length looping_code)
    × Lands PatchKind.if_zero (1 + place) target (get_or looping_code (1 + place) 0)
compile-Lands_example =
    compile-Lands places looping 64 looping_code PatchKind.if_zero 4
      (13 ∷ (3 ∷ (12 ∷ (4 ∷ (6 ∷ []))))) (omega arith) compiled.0 looping-Begins
