-- ===== src/Ty.antt =====
-- sbc/ty.ts: the types of the checker.
use h4_projekt_gruppe_0_sm.Ast.{Stmt}

mutual
  pub data Ty : Type 0 where
    error unknown void int str : Ty
    ptr : Ty → Ty
    fn : Stmt → Tys → Ty → Ty

  pub data Tys : Type 0 where
    nil : Tys
    cons : Ty → Tys → Tys
