-- ===== src/StateMachine/Paths.antt =====
-- Paths, templates and result paths of agent/orchestration/asl.py.
use aws_foundations.Base.{List, [], ◌∷◌, Option, none, some, String, Result, ok, raised, ◌>>=◌}
use aws_foundations.Base.Json.{Value, obj, Fields, end, get}
use aws_foundations.Base.Dicts.{put}

-- `StatesError`; the causes that the executor writes are shortened, without the names in them
pub record StatesError : Type 0 where
  pub name : String
  pub cause : String

abbrev pub states_error : String → String → StatesError
states_error name cause = record { name = name; cause = cause }

-- `$`, a path into the data, and a path into the context object; `split` gives at least one part
pub data JsonPath : Type 0 where
  root : JsonPath
  input context : List String → JsonPath

unfoldable pub read_parts : List String → Value → Option Value
read_parts [] v = some v
read_parts (p ∷ ps) (obj d) = elim (get p d) [ none ↦ none | some v ↦ read_parts ps v ]
read_parts (p ∷ ps) _ = none

-- `read_path`; `none` is `_MISSING`
unfoldable pub read_path : JsonPath → Value → Fields → Option Value
read_path root data' ctx = some data'
read_path (input parts) data' ctx = read_parts parts data'
read_path (context parts) data' ctx = read_parts parts (obj ctx)

-- A template: a value without paths, or an object some of whose keys are filled from a path.
mutual
  pub data Template : Type 0 where
    fixed : Value → Template
    filled : Entries → Template

  pub data Entries : Type 0 where
    done : Entries
    from_path : String → JsonPath → Entries → Entries
    nested : String → Template → Entries → Entries

abbrev pub path_missing : StatesError
path_missing = states_error "States.Runtime" "The JSONPath could not be found in the input"

unfoldable pub found_or : StatesError → Option Value → Result StatesError Value
found_or error none = raised error
found_or error (some v) = ok v

-- `resolve`; the keys are set in their order
unfoldable mutual
  pub resolve : Template → Value → Fields → Result StatesError Value
  resolve (fixed v) data' ctx = ok v
  resolve (filled es) data' ctx = do resolved ← resolve_all es data' ctx end; ok (obj resolved)

  pub resolve_all : Entries → Value → Fields → Fields → Result StatesError Fields
  resolve_all done data' ctx resolved = ok resolved
  resolve_all (from_path key path es) data' ctx resolved = do
    v ← found_or path_missing (read_path path data' ctx)
    resolve_all es data' ctx (put key v resolved)
  resolve_all (nested key template es) data' ctx resolved = do
    v ← resolve template data' ctx
    resolve_all es data' ctx (put key v resolved)

-- `ResultPath`: null, `$`, or a reference into the state's input
pub data ResultPath : Type 0 where
  discard replace : ResultPath
  at : List String → ResultPath

-- `cursor.setdefault(part, {})`
abbrev pub child_of : Option Value → Value
child_of none = obj end
child_of (some v) = v

abbrev pub no_object : StatesError
no_object = states_error "States.ResultPathMatchFailure" "not an object"

-- `if not isinstance(child, dict): raise`
abbrev pub as_object : Value → Result StatesError Fields
as_object (obj d) = ok d
as_object _ = raised no_object

-- the walk of the cursor to the last part
unfoldable pub set_at : List String → Value → Fields → Result StatesError Fields
set_at [] result d = ok d
set_at (p ∷ []) result d = ok (put p result d)
set_at (p ∷ q ∷ ps) result d = do
  child ← as_object (child_of (get p d))
  inner ← set_at (q ∷ ps) result child
  ok (put p (obj inner) d)

unfoldable pub apply_result_path : Value → Value → ResultPath → Result StatesError Value
apply_result_path raw result discard = ok raw
apply_result_path raw result replace = ok result
apply_result_path raw result (at parts) = do
  target ← as_object raw
  changed ← set_at parts result target
  ok (obj changed)

-- `_select`; no path is null
unfoldable pub select : Value → Option JsonPath → Fields → Result StatesError Value
select data' none ctx = ok (obj end)
select data' (some path) ctx = found_or path_missing (read_path path data' ctx)
