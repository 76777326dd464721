-- ===== src/Syncutil/WeakMap.antt =====
-- pkg/syncutil/weakmap.go: a map to values that the garbage collector may take.
--
-- A value is its number, which no later value gets again, and a weak pointer to it is the same
-- number. Each operation is taken whole, so that a compare in it, right after the load that it
-- compares with, holds.
use flakes.Common.{
  ℕ, zero, suc, ◌==◌, Bool, true, false, if◌then◌else◌, List, [], ◌∷◌, ◌++◌, Option, none, some,
  Bytes, Map, get, put, delete,
}

pub record WeakMap : Type 0 where
  pub m : Map ℕ
  pub is_alive : ℕ → Bool
  -- The cleanups that are registered, each for its key and its value.
  pub cleanups : List (Bytes × ℕ)

-- `wp.Value()`
unfoldable pub value_of : ℕ → WeakMap → Option ℕ
value_of wp s = if s.is_alive wp then some wp else none

-- `m.m.CompareAndDelete`
unfoldable pub delete_if : Bytes → ℕ → WeakMap → Bool × WeakMap
delete_if key wp s = elim (get key s.m) [
  | none ↦ (false, s)
  | some q ↦ if q == wp then (true, record s { m = delete key s.m }) else (false, s)
]

-- `WeakMap.cleanup`
unfoldable pub cleanup : Bytes × ℕ → WeakMap → WeakMap
unfolding delete_if
cleanup args s = (delete_if args.0 args.1 s).1

-- `WeakMap.Load`
unfoldable pub load : Bytes → WeakMap → Option ℕ × WeakMap
unfolding value_of delete_if
load key s = elim (get key s.m) [
  | none ↦ (none, s)
  | some wp ↦ elim (value_of wp s) [
    | some val ↦ (some val, s)
    | none ↦ (none, (delete_if key wp s).1)
  ]
]

-- `runtime.AddCleanup`
unfoldable pub add_cleanup : Bytes → ℕ → WeakMap → WeakMap
add_cleanup key val s = record s { cleanups = s.cleanups ++ (key, val) ∷ [] }

-- `WeakMap.Delete`
unfoldable pub remove : Bytes → WeakMap → WeakMap
remove key s = record s { m = delete key s.m }

-- `WeakMap.Store`
unfoldable pub store : Bytes → Option ℕ → WeakMap → WeakMap
unfolding remove add_cleanup
store key none s = remove key s
store key (some val) s = let s' = add_cleanup key val s in record s' { m = put key val s'.m }

-- `WeakMap.LoadOrStore`: a value that is dead is overwritten, without a cleanup for the new one.
unfoldable pub load_or_store : Bytes → Option ℕ → WeakMap → Option ℕ × WeakMap
unfolding load value_of add_cleanup
load_or_store key none s = load key s
load_or_store key (some val) s = elim (get key s.m) [
  | none ↦ (some val, add_cleanup key val (record s { m = put key val s.m }))
  | some wp ↦ elim (value_of wp s) [
    | some curr ↦ (some curr, s)
    | none ↦ (some val, record s { m = put key val s.m })
  ]
]

-- The value of a weak pointer that may be missing.
unfoldable pub value_or_none : Option ℕ → WeakMap → Option ℕ
unfolding value_of
value_or_none none s = none
value_or_none (some wp) s = value_of wp s

-- `WeakMap.LoadAndDelete`
unfoldable pub load_and_delete : Bytes → WeakMap → Option ℕ × WeakMap
unfolding value_or_none remove
load_and_delete key s = (value_or_none (get key s.m) s, remove key s)

-- `WeakMap.Swap`
unfoldable pub swap : Bytes → Option ℕ → WeakMap → Option ℕ × WeakMap
unfolding load_and_delete value_or_none store
swap key none s = load_and_delete key s
swap key (some val) s = (value_or_none (get key s.m) s, store key (some val) s)

-- `WeakMap.CompareAndDelete`
unfoldable pub compare_and_delete : Bytes → Option ℕ → WeakMap → Bool × WeakMap
unfolding delete_if
compare_and_delete key none s = (false, s)
compare_and_delete key (some old) s = delete_if key old s

-- `WeakMap.CompareAndSwap`, where `weak.Make` of nil is the pointer that no entry has.
unfoldable pub compare_and_swap : Bytes → Option ℕ → Option ℕ → WeakMap → Bool × WeakMap
unfolding compare_and_delete add_cleanup
compare_and_swap key old none s = compare_and_delete key old s
compare_and_swap key none (some new) s = (false, s)
compare_and_swap key (some old) (some new) s = elim (get key s.m) [
  | none ↦ (false, s)
  | some q ↦
      if q == old
      then (true, add_cleanup key new (record s { m = put key new s.m }))
      else (false, s)
]

-- `WeakMap.Clear`
unfoldable pub clear : WeakMap → WeakMap
clear s = record s { m = [] }

-- `WeakMap.StoreRandom`: the keys of the generator from the `n`-th on, at most `fuel` of them;
-- `none` is the loop that still runs. With the key comes the number of the next draw.
unfoldable pub store_random : (ℕ → Bytes) → ℕ → ℕ → ℕ → WeakMap → Option (Bytes × (ℕ × WeakMap))
unfolding value_of
store_random keys zero n val s = none
store_random keys (suc fuel) n val s =
    let rest = store_random keys fuel (suc n) val s in
    let stored = some (keys n, (suc n, record s { m = put (keys n) val s.m })) in
    elim (get (keys n) s.m) [
      | none ↦ stored
      | some wp ↦ elim (value_of wp s) [ none ↦ stored | some curr ↦ rest ]
    ]
