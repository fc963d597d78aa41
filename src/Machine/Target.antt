-- ===== src/Machine/Target.antt =====
-- The parameters of the two machines and of the meaning of expressions.
use h4_projekt_gruppe_0_sm.Prelude.{ℕ, Bool, List, Option}
use h4_projekt_gruppe_0_sm.Mir.{BinaryOp}

-- An operation takes the left operand first, and its `none` is a fault of the compiled program, such as a
-- division by zero. A callee sees its arguments on the stack, the last one first.
pub record Target : Type 1 where
  pub Word : Type 0
  pub World : Type 0
  pub int : ℕ → Word
  pub string : ℕ → Word
  pub fn : ℕ → Word
  pub is_zero : Word → Bool
  pub less : Word → Word → Option Word
  pub greater : Word → Word → Option Word
  pub at_most : Word → Word → Option Word
  pub at_least : Word → Word → Option Word
  pub equal : Word → Word → Option Word
  pub unequal : Word → Word → Option Word
  pub sum : Word → Word → Option Word
  pub difference : Word → Word → Option Word
  pub product : Word → Word → Option Word
  pub quotient : Word → Word → Option Word
  pub remainder : Word → Word → Option Word
  pub call : Word → List Word → World → Option (Word × World)

-- What an operator of MIR and LIR does.
unfoldable pub operation :
    (target : Target) → BinaryOp → target.Word → target.Word → Option target.Word
operation target BinaryOp.lt a b = target.less a b
operation target BinaryOp.gt a b = target.greater a b
operation target BinaryOp.le a b = target.at_most a b
operation target BinaryOp.ge a b = target.at_least a b
operation target BinaryOp.eq a b = target.equal a b
operation target BinaryOp.ne a b = target.unequal a b
operation target BinaryOp.add a b = target.sum a b
operation target BinaryOp.sub a b = target.difference a b
operation target BinaryOp.mul a b = target.product a b
operation target BinaryOp.div a b = target.quotient a b
operation target BinaryOp.mod_ a b = target.remainder a b
