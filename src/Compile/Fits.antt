-- ===== src/Compile/Fits.antt =====
-- Code of the compiled shape keeps its jumps and its bodies inside itself, so it passes the
-- structural checks of internal/bytecode/artifact.go wherever it is placed.
use howlframe.Opcode.{
  unknown, load_const, numbered, Opcode, is_registered, jump, jump_if_false, for_next, try_let,
  spawn, spawn_agent, http_route,
}
use howlframe.Program.{Instruction}
use howlframe.Validate.Fits.{TargetFits, SegmentsFit}
use howlframe.Compile.Monad.{Code}
use howlframe.Common.{
  sub_ℕ, pos, refl, length-append, ◌++◌, arith, ℤ, ◌+◌, ◌≤◌, length, ◌≡◌, ℕ, suc, true, ◌∷◌, [],
}
use howlframe.Compile.Lowered.{holds_body, is_plain}

-- The structural part of `InstructionFits`: what does not depend on the functions of a program.
abbrev pub InstructionFits : ℕ → Instruction → ℕ → Type 0
InstructionFits before inst after =
    (is_registered inst.op ≡ true)
    × TargetFits before inst.op inst.int_operand after
    × SegmentsFit inst.op inst after

-- Code with so many instructions before and after it.
abbrev pub CodeFits : ℕ → Code → ℕ → Type 0
CodeFits before [] after = Unit
CodeFits before (inst ∷ insts) after =
    InstructionFits before inst (length insts + after) × CodeFits (suc before) insts after

module _ (b b' a a' : ℕ) (hb : b ≤ b') (ha : a ≤ a') where
  TargetFits-mono :
      (op : Opcode) (offset : ℤ) → TargetFits b op offset a → TargetFits b' op offset a'
  TargetFits-mono jump offset h = omega arith
  TargetFits-mono jump_if_false offset h = omega arith
  TargetFits-mono for_next offset h = omega arith
  TargetFits-mono _ offset h = tt

  SegmentsFit-mono :
      (op : Opcode) (inst : Instruction) → SegmentsFit op inst a → SegmentsFit op inst a'
  SegmentsFit-mono spawn_agent inst h = omega arith
  SegmentsFit-mono spawn inst h = omega arith
  SegmentsFit-mono http_route inst h = omega arith
  SegmentsFit-mono try_let inst h = omega arith
  SegmentsFit-mono _ inst h = tt

-- More code around a piece of code leaves it fitting.
CodeFits-mono :
    (b b' a a' : ℕ) (code : Code) → b ≤ b' → a ≤ a' → CodeFits b code a → CodeFits b' code a'
CodeFits-mono b b' a a' [] hb ha h = tt
CodeFits-mono b b' a a' (inst ∷ insts) hb ha ((known, target, segments), rest) =
    let ha' : length insts + a ≤ length insts + a' = omega arith in
    (
      (
        known,
        TargetFits-mono b b' (length insts + a) (length insts + a') hb ha' inst.op inst.int_operand
            target,
        SegmentsFit-mono b b' (length insts + a) (length insts + a') hb ha' inst.op inst segments,
      ),
      CodeFits-mono (suc b) (suc b') a a' insts (omega arith) ha rest,
    )

CodeFits-append :
    (b a : ℕ) (xs ys : Code)
    → CodeFits b xs (length ys + a)
    → CodeFits (b + length xs) ys a
    → CodeFits b (xs ++ ys) a
CodeFits-append b a [] ys hx hy = let same : b + 0 ≡ b = omega arith in rw same at hy
CodeFits-append b a (inst ∷ insts) ys (h, hx) hy =
    let size : length (insts ++ ys) + a ≡ length insts + (length ys + a) =
      omega (arith, length-append insts ys) in
    let place : b + suc (length insts) ≡ suc b + length insts = omega arith in
    (rw size h, CodeFits-append (suc b) a insts ys hx (rw place at hy))

-- Code on its own.
abbrev pub Closed : Code → Type 0
Closed code = CodeFits 0 code 0

module _ (b a : ℕ) where
  pub inside : (code : Code) → Closed code → CodeFits b code a
  inside code h = CodeFits-mono 0 b 0 a code (omega arith) (omega arith) h

  -- Closed code, and then more.
  pub Closed-then :
      (xs ys : Code) → Closed xs → CodeFits (b + length xs) ys a → CodeFits b (xs ++ ys) a
  Closed-then xs ys h hy =
      CodeFits-append b a xs ys
        (CodeFits-mono 0 b 0 (length ys + a) xs (omega arith) (omega arith) h) hy

-- A jump forward over what follows, and one back over what stands before.
pub forward-fits :
    (b n a : ℕ) → n ≤ a + 1 → (is_registered jump ≡ true) × TargetFits b jump (pos n) a × Unit {0}
unfolding is_registered
forward-fits b n a h = (refl, omega arith, tt)

pub unless-fits :
    (b n a : ℕ)
    → n ≤ a + 1
    → (is_registered jump_if_false ≡ true) × TargetFits b jump_if_false (pos n) a × Unit {0}
unfolding is_registered
unless-fits b n a h = (refl, omega arith, tt)

pub back-fits :
    (b n a : ℕ) → n ≤ b → (is_registered jump ≡ true) × TargetFits b jump (sub_ℕ 0 n) a × Unit {0}
unfolding is_registered
back-fits b n a h = (refl, ground arith, tt)

pub plain_opcode-fits :
    (b a : ℕ) (op : Opcode) (inst : Instruction)
    → is_plain op ≡ true
    → (is_registered op ≡ true) × TargetFits b op inst.int_operand a × SegmentsFit op inst a
unfolding is_plain is_registered
plain_opcode-fits b a load_const inst h = (refl, tt, tt)
plain_opcode-fits b a unknown inst h = cc
plain_opcode-fits b a (numbered n) inst h = cc
plain_opcode-fits b a jump inst h = cc
plain_opcode-fits b a jump_if_false inst h = cc
plain_opcode-fits b a for_next inst h = cc
plain_opcode-fits b a try_let inst h = cc
plain_opcode-fits b a spawn inst h = cc
plain_opcode-fits b a spawn_agent inst h = cc
plain_opcode-fits b a http_route inst h = cc
plain_opcode-fits b a _ inst h = (refl, tt, tt)

pub holder_opcode-fits :
    (b a : ℕ) (op : Opcode) (inst : Instruction) (n : ℕ)
    → holds_body op ≡ true
    → inst.int_operand ≡ pos n
    → n ≤ a
    → (is_registered op ≡ true) × TargetFits b op inst.int_operand a × SegmentsFit op inst a
unfolding holds_body is_registered
holder_opcode-fits b a spawn inst n h e le = (refl, tt, rw e (omega arith))
holder_opcode-fits b a spawn_agent inst n h e le = (refl, tt, rw e (omega arith))
holder_opcode-fits b a http_route inst n h e le = (refl, tt, rw e (omega arith))
holder_opcode-fits b a _ inst n h e le = cc
