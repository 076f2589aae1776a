-- ===== src/Contracts/MergePatch.antt =====
-- packages/contracts/src/robotics_runtime_contracts/_merge_patch.py
--
-- A JSON tree is a value; `deepcopy` is the identity on values. A Python `dict` is its list of
-- entries in insertion order.
mod Keys
mod Apply
mod Equality
mod Creation
pub mod Roundtrip
mod Tests
use robotics_runtime.Base.{
  String, Bool, true, false, ◌&&◌, Option, none, some, str_eq, if◌then◌else◌,
}
use robotics_runtime.Base.Float
use robotics_runtime.Base.Float.{Float, Finite}
use robotics_runtime.Base.Int.{ℤ, int_eq}

-- `JSONValue`, with the lists and the entries of dicts as types of their own
mutual
  pub data Value (F : Type 0) : Type 0 where
    null : Value F
    bool : Bool → Value F
    int : ℤ → Value F
    float : Float F → Value F
    str : String → Value F
    arr : Items F → Value F
    obj : Members F → Value F

  pub data Items (F : Type 0) : Type 0 where
    nil : Items F
    cons : Value F → Items F → Items F

  pub data Members (F : Type 0) : Type 0 where
    end : Members F
    member : String → Value F → Members F → Members F

module _ {F : Type 0} where
  -- `d.get(key)`
  unfoldable pub get : Members F → String → Option (Value F)
  get end j = none
  get (member k v rest) j = if str_eq k j then some v else get rest j

  -- `key in d`
  abbrev pub has : Members F → String → Bool
  has m k = elim (get m k) [ none ↦ false | some v ↦ true ]

  -- `d[key] = value`
  pub put : Members F → String → Value F → Members F
  put end k v = member k v end
  put (member j w rest) k v = if str_eq j k then member j v rest else member j w (put rest k v)

  -- `d.pop(key, None)`
  pub pop : Members F → String → Members F
  pop end k = end
  pop (member j w rest) k = let left = pop rest k in if str_eq j k then left else member j w left

  -- `value if isinstance(value, dict) else {}`
  abbrev pub members_of : Value F → Members F
  members_of (obj m) = m
  members_of _ = end

  -- `d.get(key)` where the result is used as a value: a missing key is `None`
  abbrev pub get_or_null : Members F → String → Value F
  get_or_null m k = elim (get m k) [ none ↦ null | some v ↦ v ]

  -- the body of the loop in `merge_patch`, given the merged value
  abbrev pub store : Members F → String → Value F → Value F → Members F
  store result key null merged = pop result key
  store result key value merged = put result key merged

  unfoldable mutual
    pub merge_patch : Value F → Value F → Value F
    merge_patch target (obj patch) = obj (merge_members (members_of target) patch)
    merge_patch target patch = patch

    pub merge_members : Members F → Members F → Members F
    merge_members result end = result
    merge_members result (member key value rest) =
        merge_members (store result key value (merge_patch (get_or_null result key) value)) rest

module _ {F : Type 0} ⦃finites : Finite F⦄ where
  -- every key of the first is one of the second
  unfoldable pub keys_in : Members F → Members F → Bool
  keys_in end r = true
  keys_in (member k v rest) r = has r k && keys_in rest r

  unfoldable mutual
    pub json_equal : Value F → Value F → Bool
    json_equal null null = true
    json_equal (bool true) (bool b) = b
    json_equal (bool false) (bool true) = false
    json_equal (bool false) (bool false) = true
    json_equal (int a) (int b) = int_eq a b
    json_equal (float a) (float b) = Float.eq a b
    json_equal (str a) (str b) = str_eq a b
    json_equal (arr xs) (arr ys) = equal_items xs ys
    json_equal (obj l) (obj r) = (keys_in l r && keys_in r l) && equal_members l r
    json_equal _ _ = false

    pub equal_items : Items F → Items F → Bool
    equal_items nil nil = true
    equal_items (cons a xs) (cons b ys) = json_equal a b && equal_items xs ys
    equal_items _ _ = false

    pub equal_members : Members F → Members F → Bool
    equal_members end r = true
    equal_members (member k v rest) r =
        (elim (get r k) [ none ↦ false | some w ↦ json_equal v w ]) && equal_members rest r

  -- `{key: None for key in source if key not in target}`
  pub removals : Members F → Members F → Members F
  removals end target = end
  removals (member k v rest) target =
      let left = removals rest target in if has target k then left else member k null left

  -- `key in source and json_equal(source[key], value)`
  pub unchanged : Members F → String → Value F → Bool
  unchanged source key value = elim (get source key) [
    | none ↦ false
    | some old ↦ json_equal old value
  ]

  mutual
    pub create_value : Value F → Value F → Value F
    create_value previous (obj target) =
        obj (create_members (members_of previous) target (removals (members_of previous) target))
    create_value previous value = value

    -- the loop of `create_patch` over the items of the target
    pub create_members : Members F → Members F → Members F → Members F
    create_members source end patch = patch
    create_members source (member key value rest) patch = create_members source rest (
        if unchanged source key value
        then patch
        else put patch key (create_value (get_or_null source key) value))

  pub create_patch : Members F → Members F → Members F
  create_patch source target = create_members source target (removals source target)
