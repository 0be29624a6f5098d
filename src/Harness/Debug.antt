-- ===== src/Harness/Debug.antt =====
-- project3/Common.h: the macros DEBUG1, DEBUG2 and DEBUG3 of a build.
use utd_cs6v81_spring.Base.{◌≡◌, Bool, true, ◌||◌, List, [], Text, if◌then◌else◌, arith}

-- Which of PROJ_DEBUG1, PROJ_DEBUG2 and PROJ_DEBUG3 are defined.
pub record Defined : Type 0 where
  pub proj_debug1 : Bool
  pub proj_debug2 : Bool
  pub proj_debug3 : Bool

-- What is defined after the part for PROJ_DEBUG3, and after the part for PROJ_DEBUG2.
abbrev pub after_debug3 : Defined → Defined
after_debug3 d = if d.proj_debug3 then record d { proj_debug2 = true } else d

abbrev pub after_debug2 : Defined → Defined
after_debug2 d = if d.proj_debug2 then record d { proj_debug1 = true } else d

pub data Macro : Type 0 where
  debug1 debug2 debug3 : Macro

-- Whether a macro prints.
unfoldable pub is_on : Defined → Macro → Bool
is_on d debug3 = d.proj_debug3
is_on d debug2 = (after_debug3 d).proj_debug2
is_on d debug1 = (after_debug2 (after_debug3 d)).proj_debug1

unfoldable pub shown : Defined → Macro → List Text → List Text
shown d m lines = if is_on d m then lines else []

pub shown-debug3 :
    (d : Defined) (lines : List Text) → shown d debug3 lines ≡ (if d.proj_debug3 then lines else [])
unfolding shown is_on
shown-debug3 d lines = ground arith

-- DEBUG1 prints when any of the three is defined.
pub shown-debug1 :
    (d : Defined) (lines : List Text)
    → shown d debug1 lines ≡ (if d.proj_debug1 || d.proj_debug2 || d.proj_debug3 then lines else [])
unfolding shown is_on
shown-debug1 d lines = ground arith
