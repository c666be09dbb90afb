-- ===== src/Jit/Ops.antt =====
-- The bytecode of src/hc_ir.h: the enumeration of its operations, grouped as the cases of the
-- switch in hc_ir_compile.
use zealos_aarch64_bringup.Base.{ℕ, zero, suc, Option, none, some, List, [], ◌∷◌}

pub data Arith : Type 0 where
  add sub mul div rem and or xor shl shr asr : Arith

pub data Compare : Type 0 where
  eq ne lt le gt ge : Compare

-- HC_LOAD, HC_LOAD8 and HC_LOAD32, and likewise the stores
pub data Width : Type 0 where
  bits64 bits8 bits32 : Width

pub data FloatArith : Type 0 where
  fadd fsub fmul fdiv : FloatArith

-- `call n` is HC_CALL0 to HC_CALL7.
pub data Op : Type 0 where
  end_of_code imm64 neg dup swap drop label jmp jz jnz st_local ld_local : Op
  slot_addr enter leave ld_slot st_slot ld_abs st_abs abs_addr inarg ret : Op
  i2f f2i fneg : Op
  arith : Arith → Op
  compare : Compare → Op
  load store : Width → Op
  call : ℕ → Op
  float_arith : FloatArith → Op
  float_compare : Compare → Op

-- In the order of their numbers, from 0 to 65.
abbrev pub ops : List Op
ops =
    Op.end_of_code
    ∷ (Op.imm64
        ∷ (Op.arith Arith.add
            ∷ (Op.arith Arith.sub
                ∷ (Op.arith Arith.mul
                    ∷ (Op.call 0
                        ∷ (Op.ret
                            ∷ (Op.compare Compare.eq
                                ∷ (Op.compare Compare.lt
                                    ∷ (Op.neg
                                        ∷ (Op.dup
                                            ∷ (Op.drop
                                                ∷ (Op.label
                                                    ∷ (Op.jmp
                                                        ∷ (Op.jz
                                                            ∷ (Op.jnz
                                                            ∷ (Op.st_local
                                                            ∷ (Op.ld_local
                                                            ∷ (Op.slot_addr
                                                            ∷ (Op.load Width.bits64
                                                            ∷ (Op.store Width.bits64
                                                            ∷ (Op.arith Arith.and
                                                            ∷ (Op.arith Arith.or
                                                            ∷ (Op.arith Arith.xor
                                                            ∷ (Op.arith Arith.shl
                                                            ∷ (Op.arith Arith.shr
                                                            ∷ (Op.compare Compare.ne
                                                            ∷ (Op.compare Compare.le
                                                            ∷ (Op.compare Compare.gt
                                                            ∷ (Op.compare Compare.ge
                                                            ∷ (Op.call 1
                                                            ∷ (Op.call 2
                                                            ∷ (Op.ld_slot
                                                            ∷ (Op.st_slot
                                                            ∷ (Op.inarg
                                                            ∷ (Op.load Width.bits8
                                                            ∷ (Op.store Width.bits8
                                                            ∷ (Op.arith Arith.div
                                                            ∷ (Op.arith Arith.rem
                                                            ∷ (Op.arith Arith.asr
                                                            ∷ (Op.call 3
                                                            ∷ (Op.call 4
                                                            ∷ (Op.call 5
                                                            ∷ (Op.load Width.bits32
                                                            ∷ (Op.store Width.bits32
                                                            ∷ (Op.enter
                                                            ∷ (Op.leave
                                                            ∷ (Op.call 6
                                                            ∷ (Op.ld_abs
                                                            ∷ (Op.st_abs
                                                            ∷ (Op.abs_addr
                                                            ∷ (Op.i2f
                                                            ∷ (Op.f2i
                                                            ∷ (Op.float_arith FloatArith.fadd
                                                            ∷ (Op.float_arith FloatArith.fsub
                                                            ∷ (Op.float_arith FloatArith.fmul
                                                            ∷ (Op.float_arith FloatArith.fdiv
                                                            ∷ (Op.fneg
                                                            ∷ (Op.float_compare Compare.eq
                                                            ∷ (Op.float_compare Compare.lt
                                                            ∷ (Op.float_compare Compare.le
                                                            ∷ (Op.float_compare Compare.gt
                                                            ∷ (Op.float_compare Compare.ge
                                                            ∷ (Op.float_compare Compare.ne
                                                            ∷ (Op.call 7 ∷ (Op.swap ∷ []))))))))))))
                                                            ))))))))))))))))))))))))))))))))))))))))
                                                            )))))))))))))

abbrev pub nth : List Op → ℕ → Option Op
nth [] i = none
nth (x ∷ xs) zero = some x
nth (x ∷ xs) (suc i) = nth xs i

-- `none` is the default of the switch.
unfoldable pub op_of : ℕ → Option Op
op_of byte = nth ops byte
