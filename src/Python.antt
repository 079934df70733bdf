-- ===== src/Python.antt =====
-- What bindings/python/src/dense_sim/_dense_sim.c uses of CPython: exceptions, result objects,
-- and calls that may raise. CPython itself is not modelled: what PyArg_ParseTuple makes of the
-- arguments, what PyObject_GetBuffer gives, and whether PyObject_New finds memory are arguments.
use libdense.Common.{ℕ, Bool, String, List}
use libdense.Common.Int.{ℤ}

-- The classes of the exceptions that the binding raises; `foreign` is one that CPython raised.
pub data ExcType : Type 0 where
  dense_sim_error : ExcType
  runtime_error : ExcType
  index_error : ExcType
  overflow_error : ExcType
  type_error : ExcType
  value_error : ExcType
  memory_error : ExcType
  foreign : ExcType

-- A piece of a formatted text: literal text and `%s`, a `%s` of bytes that came from the caller,
-- `%zu` and `%llu`, `%zd` and `%d`.
pub data Part : Type 0 where
  text : String → Part
  bytes : List ℕ → Part
  unsigned : ℕ → Part
  signed : ℤ → Part

pub record Exc : Type 0 where
  pub class : ExcType
  pub message : List Part

-- What a C function of the binding does: it returns, it returns NULL or -1 with an exception
-- set, or it reads memory that is not there.
pub data Result (A : Type 0) : Type 0 where
  ok : A → Result A
  err : Exc → Result A
  fault : Result A

-- PyArg_ParseTuple has stored the converted arguments, or has set an exception.
pub data Parsed (A : Type 0) : Type 0 where
  parsed : A → Parsed A
  rejected : Exc → Parsed A

pub data Scalar : Type 0 where
  integer : ℤ → Scalar
  boolean : Bool → Scalar

-- The objects that the methods return.
pub data Value : Type 0 where
  py_none : Value
  scalar : Scalar → Value
  str : List Part → Value
  dict : List (String × Scalar) → Value
