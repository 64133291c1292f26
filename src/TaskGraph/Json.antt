-- ===== src/TaskGraph/Json.antt =====
-- packages/task-graph/src/validation.ts: the metadata of a task, a JSON object that the graph checks
-- and carries, and never reads. A number is kept as its text. The fields of an object stand in the
-- order of their keys, in which `cloneJsonValue` visits and stores them.
use ai_development_os.Prelude.{
  ℕ, suc, ◌-◌, String, Bool, true, false, ◌||◌, Result, ok, ◌>>=◌, ◌>>◌, reject_if, guard, ltb,
  ◌==◌, string_eq, utf16_length,
}

mutual
  pub data Json : Type 0 where
    null : Json
    bool : Bool → Json
    num : String → Json
    str : String → Json
    arr : Items → Json
    obj : Fields → Json

  pub data Items : Type 0 where
    nil : Items
    cons : Json → Items → Items

  pub data Fields : Type 0 where
    end : Fields
    field : String → Json → Fields → Fields

abbrev pub max_json_depth : ℕ
max_json_depth = 32

abbrev pub max_json_nodes : ℕ
max_json_nodes = 10000

abbrev pub max_json_string_length : ℕ
max_json_string_length = 100000

abbrev pub max_data_object_fields : ℕ
max_data_object_fields = 10000

abbrev pub is_dangerous_key : String → Bool
is_dangerous_key key = (key == "__proto__") || ((key == "constructor") || (key == "prototype"))

abbrev pub count_items : Items → ℕ
count_items nil = 0
count_items (cons x xs) = suc (count_items xs)

abbrev pub count_fields : Fields → ℕ
count_fields end = 0
count_fields (field k x fs) = suc (count_fields fs)

-- The limits that every node meets, and one of its own.
abbrev pub clone_leaf {ℓ} : {E : Type ℓ} → E → ℕ → ℕ → Bool → Result E ℕ
clone_leaf e depth nodes oversized =
    reject_if (ltb max_json_nodes (suc nodes) || (ltb max_json_depth depth || oversized)) e
    >> ok (suc nodes)

-- `cloneJsonValue`: `nodes` is `state.nodes` on entry, and the result its value on return. A value
-- that refers to itself has no counterpart here, so `state.active` is left out.
unfoldable mutual
  pub clone_json {ℓ} : {E : Type ℓ} → E → ℕ → ℕ → Json → Result E ℕ
  clone_json e depth nodes null = clone_leaf e depth nodes false
  clone_json e depth nodes (bool b) = clone_leaf e depth nodes false
  clone_json e depth nodes (num n) = clone_leaf e depth nodes false
  clone_json e depth nodes (str s) =
      clone_leaf e depth nodes (ltb max_json_string_length (utf16_length s))
  clone_json e depth nodes (arr xs) = do
    entered ← clone_leaf e depth nodes (ltb (max_json_nodes - suc nodes) (count_items xs))
    clone_items e (suc depth) entered xs
  clone_json e depth nodes (obj fs) = do
    entered ← clone_leaf e depth nodes (ltb max_data_object_fields (count_fields fs))
    clone_fields e (suc depth) entered fs

  pub clone_items {ℓ} : {E : Type ℓ} → E → ℕ → ℕ → Items → Result E ℕ
  clone_items e depth nodes nil = ok nodes
  clone_items e depth nodes (cons x xs) =
      clone_json e depth nodes x >>= λ next. clone_items e depth next xs

  pub clone_fields {ℓ} : {E : Type ℓ} → E → ℕ → ℕ → Fields → Result E ℕ
  clone_fields e depth nodes end = ok nodes
  clone_fields e depth nodes (field k x fs) = do
    reject_if (is_dangerous_key k) e
    next ← clone_json e depth nodes x
    clone_fields e depth next fs

abbrev pub is_object : Json → Bool
is_object (obj fs) = true
is_object _ = false

-- `cloneAndFreezeJsonObject`.
unfoldable pub clone_json_object {ℓ} : {E : Type ℓ} → E → Json → Result E Json
clone_json_object e value = do nodes ← clone_json e 0 0 value; guard (is_object value) e; ok value
