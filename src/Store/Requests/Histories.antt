-- ===== src/Store/Requests/Histories.antt =====
-- A relation that each request keeps holds between the ends of any history.
use aisummoner.Prelude.{List, [], ◌∷◌, map, All}
use aisummoner.Store.Data.{Db}
use aisummoner.Store.Driver.{Outcome, World, quiet}
use aisummoner.Store.Driver.Keeps.{IsOrder, Rely, Keeps}
use aisummoner.Store.Requests.{Request, request, serve, slot_of, history}

module _ {R : Db → Db → Type 0} (o : IsOrder R) (P : Request → Type 0)
    (k : (r : Request) → P r → Keeps R (request r)) where
  serve_step : (rs : List Request) (w : World) → All P rs → Rely R w.script → R w.db (serve rs w).db
  unfolding serve
  serve_step [] w h s = o.same w.db
  serve_step (r ∷ rest) w h s =
      let (t, s') = (k r h.0).at w s in
      o.then_ w.db (request r w).1.db _ t (serve_step rest (request r w).1 h.1 s')

  script-Rely :
      (script : List (List Request × Outcome))
      → All (λ x. All P x.0) script
      → Rely R (map slot_of script)
  script-Rely [] h = tt
  script-Rely ((rs, out) ∷ rest) h = ((λ db. serve_step rs (quiet db) h.0 tt), script-Rely rest h.1)

  pub history-keeps :
      (rs : List Request) (script : List (List Request × Outcome)) (db : Db)
      → All P rs
      → All (λ x. All P x.0) script
      → R db (history rs script db)
  unfolding history
  history-keeps rs script db h hs =
      serve_step rs (record { db = db; script = map slot_of script }) h (script-Rely script hs)
