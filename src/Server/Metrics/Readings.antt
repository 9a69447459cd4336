-- ===== src/Server/Metrics/Readings.antt =====
-- metrics.go: the readings of the process's memory that the page of variables shows.
use go_octopi.Base.{ℕ, Option, none, some, List, [], ◌∷◌, String, String-Eq, Dict, lookup, insert}

-- A metrics.Value; a float64 is the number that the conversion to uint64 gives.
pub data Value : Type 0 where
  kind_uint64 : ℕ → Value
  kind_float64 : ℕ → Value
  -- the zero Value, or a kind that is neither
  kind_bad : Value

-- A metrics.Sample.
pub record Sample : Type 0 where
  pub name : String
  pub value : Value

-- The fields of a runtime.MemStats that are read.
pub record MemStats : Type 0 where
  pub sys : ℕ
  pub heap_inuse : ℕ
  pub heap_alloc : ℕ

-- What the packages runtime and runtime/metrics tell.
pub record Runtime : Type 0 where
  -- the names of metrics.All()
  pub all : List String
  -- metrics.Read, which fills the samples of the slice that it is given
  pub read : List Sample → List Sample
  -- runtime.ReadMemStats
  pub read_mem_stats : MemStats

abbrev pub heap_objects_metric : String
heap_objects_metric = "/memory/classes/heap/objects:bytes"

-- The set of the names, added to the one so far.
unfoldable pub add_names : List String → Dict String (Unit {0}) → Dict String (Unit {0})
unfolding insert
add_names [] set = set
add_names (name ∷ names) set = add_names names (insert name tt set)

-- buildRuntimeMetricSet
unfoldable pub build_runtime_metric_set : Runtime → Dict String (Unit {0})
build_runtime_metric_set rt = add_names rt.all []

module _ (rt : Runtime) where
  abbrev uint64_of : Value → Option ℕ
  uint64_of (kind_uint64 n) = some n
  uint64_of (kind_float64 n) = some n
  uint64_of kind_bad = none

  abbrev new_sample : String → Sample
  new_sample name = record { name = name; value = kind_bad }

  -- The variable `sample` and the slice of the call of metrics.Read, once it has returned. The slice
  -- holds a copy of the sample, and the call fills only the copy.
  abbrev read_copy : Sample → Sample × List Sample
  read_copy sample = (sample, rt.read (sample ∷ []))

  -- readRuntimeUint64
  unfoldable pub read_runtime_uint64 : String → Option ℕ
  read_runtime_uint64 name = elim (lookup name (build_runtime_metric_set rt)) [
    | none ↦ none
    | some known ↦ uint64_of (read_copy (new_sample name)).0.value
  ]

  abbrev value_or : ℕ → Option ℕ → ℕ
  value_or fallback none = fallback
  value_or fallback (some n) = n

  -- readProcessMemory
  unfoldable pub read_process_memory : ℕ
  read_process_memory = rt.read_mem_stats.sys

  -- readHeapInUse
  unfoldable pub read_heap_in_use : ℕ
  read_heap_in_use =
      value_or rt.read_mem_stats.heap_inuse (read_runtime_uint64 "/memory/classes/heap/used:bytes")

  -- readRuntimeHeapObjects
  unfoldable pub read_runtime_heap_objects : ℕ
  read_runtime_heap_objects =
      value_or rt.read_mem_stats.heap_alloc (read_runtime_uint64 heap_objects_metric)
