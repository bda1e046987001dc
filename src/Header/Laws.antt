-- ===== src/Header/Laws.antt =====
-- Reading a header after it was written.
use kube_oidc_proxy.Base.{
  Text, [], ◌∷◌, ◌≡◌, arith, ◌==◌, if◌then◌else◌, lookup-insert, lookup-delete,
}
use kube_oidc_proxy.Header.{Header, canonical, get, set, del}

pub get-set :
    (h : Header) (k j v : Text)
    → get (set h k v) j ≡ (if canonical k == canonical j then v else get h j)
unfolding get set
get-set h k j v = ground (arith, lookup-insert (canonical j) (canonical k) (v ∷ []) h)

pub get-del :
    (h : Header) (k j : Text)
    → get (del h k) j ≡ (if canonical k == canonical j then [] else get h j)
unfolding get del
get-del h k j = ground (arith, lookup-delete (canonical j) (canonical k) h)
