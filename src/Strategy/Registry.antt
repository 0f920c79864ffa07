-- ===== src/Strategy/Registry.antt =====
-- `StrategyRegistry` (strategies/base.py): loaded strategies, and their pausing and resuming.
use stocks_fno.Prelude.{
  ◌≡◌, Bool, true, false, Option, none, some, List, String, elem, eq_iff, if◌then◌else◌, arith,
}
use stocks_fno.Dict.{Dict, lookup, insert, remove, lookup-insert, lookup-insert_self}

-- what the registry keeps of an instance
pub record Instance : Type 0 where
  pub is_active : Bool
  pub paused_reason : Option String
  pub paused_by : Option String

-- the plugins that are registered, and the instances by their ids
pub record Registry : Type 0 where
  pub strategies : List String
  pub active_instances : Dict Instance

abbrev pub fresh : Instance
fresh = record { is_active = true; paused_reason = none; paused_by = none }

-- `load_strategy`; `none` is the error of an unknown plugin
unfoldable pub load_strategy : String → String → Registry → Option Registry
load_strategy name id reg =
    if elem name reg.strategies
    then some (record reg { active_instances = insert id fresh reg.active_instances })
    else none

unfoldable pub unload_strategy : String → Registry → Registry
unload_strategy id reg = record reg { active_instances = remove id reg.active_instances }

abbrev pub paused : Option String → String → Instance → Instance
paused reason source i = record i {
  is_active = false;
  paused_reason = reason;
  paused_by = some source;
}

abbrev pub resumed : Instance → Instance
resumed i = record i { is_active = true; paused_reason = none; paused_by = none }

abbrev on_instance : (Instance → Instance) → String → Registry → Option Instance → Bool × Registry
on_instance g id reg none = (false, reg)
on_instance g id reg (some i) =
    (true, record reg { active_instances = insert id (g i) reg.active_instances })

unfoldable pub pause_strategy : String → Option String → String → Registry → Bool × Registry
pause_strategy id reason source reg =
    on_instance (paused reason source) id reg (lookup id reg.active_instances)

unfoldable pub resume_strategy : String → Registry → Bool × Registry
resume_strategy id reg = on_instance resumed id reg (lookup id reg.active_instances)

-- Pausing a running strategy and resuming it gives back what every lookup found before, the strategy
-- and all others alike.
resume-pause :
    (id : String) (reason : Option String) (source : String) (reg : Registry)
    → lookup id reg.active_instances ≡ some fresh
    → (j : String)
    → lookup j (resume_strategy id (pause_strategy id reason source reg).1).1.active_instances
      ≡ lookup j reg.active_instances
unfolding resume_strategy pause_strategy
resume-pause id reason source reg h j =
    let d = reg.active_instances in
    rw (h, lookup-insert_self id (paused reason source fresh) d)
      (ground (
        arith,
        eq_iff id j,
        lookup-insert j id fresh (insert id (paused reason source fresh) d),
        lookup-insert j id (paused reason source fresh) d,
        h,
      ))
