-- ===== src/Diff.antt =====
-- diff/diff.go: the operations of an edit script.
pub mod Hirschberg
pub mod Script
use niceyaml.Prelude.{ℕ}

-- `line.Flag`, of line/meta.go.
pub data Flag : Type 0 where
  default inserted deleted annotation : Flag

pub data OpKind : Type 0 where
  op_equal op_delete op_insert : OpKind

-- `OpKind.Flag`.
unfoldable pub flag : OpKind → Flag
flag op_delete = deleted
flag op_insert = inserted
flag op_equal = default

pub record Op : Type 0 where
  pub kind : OpKind
  pub index : ℕ
