-- ===== src/Prelude/Redis.antt =====
-- The key-value server behind redis.service.ts, which is no part of this code: typed values under
-- text keys, where a read gives back what was written last. Values that are read before their
-- time to live is over.
use mathlib.Core.Path.{◌≡◌, refl}
use mathlib.Core.Option.{Option, none, some}
use mathlib.Core.List.{[]}
use f_chat_backend.Prelude.Tests.{if◌then◌else◌}
use f_chat_backend.Prelude.Texts.{Text, ◌==◌}
use f_chat_backend.Prelude.Map
use f_chat_backend.Prelude.Map.{Map}

pub record Redis (V : Type 0) : Type 1 where
  pub St : Type 0
  pub empty : St
  pub get : St → Text → Option V
  pub set : St → Text → V → St
  pub del : St → Text → St
  pub get-empty : (k : Text) → get empty k ≡ none
  pub get-set :
      (s : St) (k j : Text) (v : V) → get (set s k v) j ≡ (if k == j then some v else get s j)
  pub get-del : (s : St) (k j : Text) → get (del s k) j ≡ (if k == j then none else get s j)

pub get-empty_map : {V : Type 0} (k : Text) → Map.get {V = V} [] k ≡ none
unfolding Map.get
get-empty_map k = refl

abbrev pub map_redis : (V : Type 0) → Redis V
map_redis V = record {
  St = Map V;
  empty = [];
  get = Map.get;
  set = Map.set;
  del = Map.remove;
  get-empty = get-empty_map;
  get-set = Map.get-set;
  get-del = Map.get-remove;
}
