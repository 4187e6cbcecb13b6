-- ===== src/Js/Samples.antt =====
-- A concrete runtime at which the theorems with a runtime are applied.
use voxeltoad.Common.{[], some, none, refl, str_eq, if◌then◌else◌}
use voxeltoad.Common.Int.{pos}
use voxeltoad.Js.Number.{int}
use voxeltoad.Js.Json.{object}
use voxeltoad.Js.Runtime.{Runtime, NumberLaws, value}

abbrev pub plain_runtime : Runtime
plain_runtime = record {
  number = λ s. int (pos (value 0 s));
  times = λ x y. x;
  json_parse = λ s. if str_eq s "{}" then some (object []) else none;
  stringify = λ v. "";
  stringify_indent = λ v. "";
  number_text = λ n. "";
  object_text = λ v. "[object Object]";
}

pub plain_runtime_laws : NumberLaws plain_runtime
plain_runtime_laws = record { exact = λ s h k l. refl }
