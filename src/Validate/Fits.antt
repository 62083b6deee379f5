-- ===== src/Validate/Fits.antt =====
-- What `validateInstructions` accepts, said of each instruction by what stands before and after it.
use howlframe.Common.{
  ℕ, ◌+◌, ◌≤◌, String, ◌≡◌, refl, true, none, arith, ℤ, pos, negsuc, pos_part, neg_part, sub_ℕ,
  lookup, ◌≢◌,
}
use howlframe.Common.Result.{ok}
use howlframe.Opcode.{
  Opcode, jump, jump_if_false, for_next, spawn_agent, spawn, http_route, try_let, load_const, call,
}
use howlframe.Program.{Value, float, Instruction, Functions, is_finite}
use howlframe.Validate.{check_jump, check_try, check_segments}

-- A jump by `offset` from an instruction with `before` others in front and `after` behind it.
abbrev pub TargetFits : ℕ → Opcode → ℤ → ℕ → Type 0
TargetFits before jump offset after = (neg_part offset ≤ before) × (pos_part offset ≤ after + 1)
TargetFits before jump_if_false offset after =
    (neg_part offset ≤ before) × (pos_part offset ≤ after + 1)
TargetFits before for_next offset after = (neg_part offset ≤ before) × (pos_part offset ≤ after + 1)
TargetFits before _ offset after = Unit

abbrev SizeFits : ℤ → ℕ → Type 0
SizeFits size after = (neg_part size ≡ 0) × (pos_part size ≤ after)

-- The segments that an instruction holds are among the `after` instructions behind it.
abbrev pub SegmentsFit : Opcode → Instruction → ℕ → Type 0
SegmentsFit spawn_agent inst after = SizeFits inst.int_operand after
SegmentsFit spawn inst after = SizeFits inst.int_operand after
SegmentsFit http_route inst after = SizeFits inst.int_operand after
SegmentsFit try_let inst after =
    (neg_part inst.int_operand ≡ 0)
    × (neg_part inst.int_operand2 ≡ 0)
    × (neg_part inst.int_operand3 ≡ 0)
    × (pos_part inst.int_operand + pos_part inst.int_operand2 + pos_part inst.int_operand3 ≤ after)
SegmentsFit _ inst after = Unit

abbrev pub ConstantFits : Opcode → Value → Type 0
ConstantFits load_const (float bits) = is_finite bits ≡ true
ConstantFits _ v = Unit

abbrev pub CalleeExists : Functions → Opcode → String → Type 0
CalleeExists functions call name = lookup name functions ≢ none
CalleeExists functions _ name = Unit

check_try-fits :
    (i r : ℕ) (v c s : ℤ)
    → check_try i v c s (pos r) ≡ ok tt
    → (neg_part v ≡ 0)
      × (neg_part c ≡ 0)
      × (neg_part s ≡ 0)
      × (pos_part v + pos_part c + pos_part s ≤ r)
unfolding check_try
check_try-fits i r (pos v) (pos c) (pos s) h = ground arith
check_try-fits i r (pos v) (pos c) (negsuc s) h = ground arith
check_try-fits i r (pos v) (negsuc c) s h = ground arith
check_try-fits i r (negsuc v) c s h = ground arith

remaining-eq : (i after : ℕ) → sub_ℕ (i + 1 + after) (i + 1) ≡ pos after
remaining-eq i after = ground arith

module _ (i after : ℕ) where
  pub check_jump-TargetFits :
      (op : Opcode) (offset : ℤ)
      → check_jump (i + 1 + after) i op offset ≡ ok tt
      → TargetFits i op offset after
  unfolding check_jump
  check_jump-TargetFits jump offset h = ground arith
  check_jump-TargetFits jump_if_false offset h = ground arith
  check_jump-TargetFits for_next offset h = ground arith
  check_jump-TargetFits _ offset h = tt

  pub TargetFits-check_jump :
      (op : Opcode) (offset : ℤ)
      → TargetFits i op offset after
      → check_jump (i + 1 + after) i op offset ≡ ok tt
  unfolding check_jump
  TargetFits-check_jump jump offset h = ground arith
  TargetFits-check_jump jump_if_false offset h = ground arith
  TargetFits-check_jump for_next offset h = ground arith
  TargetFits-check_jump _ offset h = refl

  pub check_segments-SegmentsFit :
      (op : Opcode) (inst : Instruction)
      → check_segments i (sub_ℕ (i + 1 + after) (i + 1)) op inst ≡ ok tt
      → SegmentsFit op inst after
  unfolding check_segments
  check_segments-SegmentsFit spawn_agent inst h = ground arith
  check_segments-SegmentsFit spawn inst h = ground arith
  check_segments-SegmentsFit http_route inst h = ground arith
  check_segments-SegmentsFit try_let inst h =
      check_try-fits i after inst.int_operand inst.int_operand2 inst.int_operand3
        (rw (remaining-eq i after) at h)
  check_segments-SegmentsFit _ inst h = tt

  pub SegmentsFit-check_segments :
      (op : Opcode) (inst : Instruction)
      → SegmentsFit op inst after
      → check_segments i (sub_ℕ (i + 1 + after) (i + 1)) op inst ≡ ok tt
  unfolding check_segments
  SegmentsFit-check_segments spawn_agent inst h = ground arith
  SegmentsFit-check_segments spawn inst h = ground arith
  SegmentsFit-check_segments http_route inst h = ground arith
  SegmentsFit-check_segments try_let inst h = ground arith
  SegmentsFit-check_segments _ inst h = refl
