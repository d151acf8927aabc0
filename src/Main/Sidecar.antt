-- ===== src/Main/Sidecar.antt =====
-- The goroutines of a sidecar and its refresh endpoint, one provider's step at a time in any order.
use hasura_secret_refresh.Base.{
  ◌≡◌, refl, sym, ◌≢◌, Option, some, List, [], ◌∷◌, ◌++◌, All, ap, ◌∙◌, arith,
}
use mathlib.Core.List.{Memᴰ}
use hasura_secret_refresh.Strings.{Text}
use hasura_secret_refresh.Assoc.{Assoc, lookup}
use hasura_secret_refresh.Result.{Result, ok, err, panic}
use hasura_secret_refresh.Provider.{FileProvider}
use hasura_secret_refresh.Server.Refresh.{
  status, status_ok, post, filename, outcome, serve_refresh, Others, serve_refresh-one,
}
use hasura_secret_refresh.FileLoop.{World}
use hasura_secret_refresh.FileLoop.Writer.{IsWriter}
use hasura_secret_refresh.Main.Own.{Outside, IsOwn, HoldsSecret, refresh-HoldsSecret}
use hasura_secret_refresh.Main.Files.{All-IsWriter}

-- One step of a running provider: it clears its file at the start, runs a round of its loop, or is
-- refreshed by the endpoint.
pub data Moved (p : FileProvider World) (w : World) : World → Type 0 where
  prepared : Moved p w (p.prepare w)
  iterated : Moved p w (p.iterate w).1
  refreshed : Moved p w (p.refresh w).1

-- The worlds that the steps of a group of providers lead to.
pub data Moves (ps : List (FileProvider World)) (w : World) : World → Type 0 where
  start : Moves ps w w
  move :
      {u v : World} {p : FileProvider World} → Moves ps w u → Memᴰ p ps → Moved p u v → Moves ps w v

All_member {κ} :
    (P : FileProvider World → Type κ) {p : FileProvider World} (ps : List (FileProvider World))
    → All P ps
    → Memᴰ p ps
    → P p
All_member P [] h m = elim m [ ]
All_member P (q ∷ ps) (h, hs) (Memᴰ.head e) = rw e h
All_member P (q ∷ ps) (h, hs) (Memᴰ.tail m) = All_member P ps hs m

Moved-others :
    {p : FileProvider World} {w v : World} (other : Text)
    → IsWriter p
    → p.file_name ≢ other
    → Moved p w v
    → lookup other v.disk ≡ lookup other w.disk
Moved-others {p} {w} other writer differ prepared = writer.clears other w differ
Moved-others {p} {w} other writer differ iterated =
    ap (λ (u : World). lookup other u.disk) (writer.follows w) ∙ writer.spares other w differ
Moved-others {p} {w} other writer differ refreshed = writer.spares other w differ

-- However the steps of file providers interleave, a file that belongs to none of them is left as it
-- was.
pub Moves-others :
    {ps : List (FileProvider World)} {w v : World} (other : Text)
    → All IsWriter ps
    → All (λ (q : FileProvider World). q.file_name ≢ other) ps
    → Moves ps w v
    → lookup other v.disk ≡ lookup other w.disk
Moves-others {ps} other writers differ start = refl
Moves-others {ps} other writers differ (move moves there moved) =
    Moved-others other (All_member _ ps writers there) (All_member _ ps differ there) moved
    ∙ Moves-others other writers differ moves

outcome-ok : (r : Result (Unit {0})) → outcome r ≡ status status_ok → r ≡ ok tt
outcome-ok (ok u) e = refl
outcome-ok (err x) e = ground (arith, e)
outcome-ok (panic w) e = cc

module _ {C : Type 0} (out : Outside C) where
  -- Once a refresh of one of the repository's file providers returned no error, its file holds, with
  -- mode 0644, the provider's own secret of that moment: what its transformation and its template made
  -- of its input file, or of what its store answered, or a token that its database had accepted. So it
  -- does however the steps of such providers of other files interleave after it.
  pub Moves-HoldsSecret :
      {p : FileProvider World} {ps : List (FileProvider World)} {w w' v : World}
      → IsOwn out p
      → All (IsOwn out) ps
      → All (λ (q : FileProvider World). q.file_name ≢ p.file_name) ps
      → p.refresh w ≡ (ok tt, w')
      → Moves ps w' v
      → HoldsSecret out p w v
  Moves-HoldsSecret {p} {ps} {w} {w'} own owns differ good moves =
      let (secret, got, holds) = refresh-HoldsSecret out w w' own good in
      (secret, got, Moves-others p.file_name (All-IsWriter out ps owns) differ moves ∙ holds)

  -- If a POST that names the file of exactly one provider is answered by 200, the file of that
  -- provider then holds its secret, with mode 0644.
  pub serve_refresh-HoldsSecret :
      (to_slash : Text → Text) (decode : Text → Option (Assoc Text))
      (before : Assoc (FileProvider World)) (f : Text) (p : FileProvider World)
      (after : Assoc (FileProvider World)) (body name : Text) (fields : Assoc Text) (w w' : World)
      → IsOwn out p
      → decode body ≡ some fields
      → lookup filename fields ≡ some name
      → Others to_slash decode name before
      → to_slash f ≡ to_slash name
      → Others to_slash decode name after
      → serve_refresh to_slash decode (before ++ (f, p) ∷ after) post body w
        ≡ (status status_ok, w')
      → HoldsSecret out p w w'
  serve_refresh-HoldsSecret to_slash decode before f p after body name fields w w' own decoded named
        ahead same behind e =
      let done : (outcome (p.refresh w).0, (p.refresh w).1) ≡ (status status_ok, w') =
        sym (
          serve_refresh-one to_slash decode before f p after body name fields w decoded named ahead
            same behind)
        ∙ e in
      refresh-HoldsSecret out w w' own
        (λ i. (outcome-ok (p.refresh w).0 (λ j. (done j).0) i, (done i).1))
