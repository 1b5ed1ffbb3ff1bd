-- ===== src/Links/Profile.antt =====
-- The profile for Clash: which inbounds are in it.
use pony.Prelude.{
  ℕ, ◌≡◌, refl, sym, ◌∙◌, inl, inr, true, List, [], ◌∷◌, Option, none, some, arith, All, IsIn,
  All-imp, Bool-cases, Option-cases, nat_eq, list_eq,
}
use mathlib.Core.Path.{subst}
use pony.Prelude.Map.{Map, lookup}
use pony.Prelude.Text.{Text, codes}
use pony.Tag.{
  ProtoTag, vless_tcp_reality, vless_grpc_reality, vless_xhttp_reality, vmess, shadowsocks,
  wireguard, hysteria2, mtproto,
}
use pony.Subscription.{Uuid, DateTime, Subscription, is_active}
use pony.Connection.{Conn}
use pony.Inbound.{
  Inbound, StreamSettings, RealitySettings, XhttpSettings, GrpcSettings, TcpSettings, TcpHeader,
  TcpRequest,
}
use pony.Inbound.Link.{
  LinkText, ◌>>=◌, first, create_link, link_of, vless_grpc, vless_xhttp, vmess_link,
}
use pony.Inbound.Clash.{
  ClashProxy, ClashConfig, clash_config, proxy, clash_of_tag, vmess_clash, vless_clash,
}
use pony.Links.{
  Served, FormatReq, base64, txt, clash, SubscriptionInfoRequest, validate, profile, bad, expired,
  missing, as_text, served, links, proxies, formatted, reply_with, subscription_link_handler,
}
use pony.Sync.World.{World}

-- VLESS over gRPC or XHTTP, and VMess.
abbrev pub IsProxied : ProtoTag → Type 0
IsProxied vless_grpc_reality = Unit
IsProxied vless_xhttp_reality = Unit
IsProxied vmess = Unit
IsProxied vless_tcp_reality = ⊥
IsProxied shadowsocks = ⊥
IsProxied wireguard = ⊥
IsProxied hysteria2 = ⊥
IsProxied mtproto = ⊥

bound :
    {A B : Type 0} (m : Option A) (f : A → Option B) (b : B)
    → (m >>= f) ≡ some b
    → (a : A) × (m ≡ some a) × (f a ≡ some b)
bound none f b h = ground (arith, h)
bound (some a) f b h = (a, refl, h)

as_text_profile :
    (e : Option DateTime) (o : Option (List (List Text))) (c : ClashConfig)
    → as_text e o ≡ profile c
    → ⊥
as_text_profile e none c h = ground (arith, h)
as_text_profile e (some ls) c h = ground (arith, h)

module _ (t : LinkText) where
  over_grpc :
      (i : Inbound) (s : StreamSettings) (r : RealitySettings) (g : GrpcSettings) (conn_id : Uuid)
      (address : ℕ) (label : Text)
      → s.reality_settings ≡ some r
      → s.grpc_settings ≡ some g
      → (p : ClashProxy) × (vless_clash t i s conn_id address label ≡ some p)
  unfolding vless_clash
  over_grpc i s r g conn_id address label reality grpc = rw (vless_clash, reality, grpc) (_, refl)

  over_tcp :
      (i : Inbound) (s : StreamSettings) (tcp : TcpSettings) (header : TcpHeader)
      (request : TcpRequest) (headers : Map Text (List Text)) (hosts : List Text) (host : Text)
      (conn_id : Uuid) (address : ℕ) (label : Text)
      → s.tcp_settings ≡ some tcp
      → tcp.header ≡ some header
      → header.request ≡ some request
      → request.headers ≡ some headers
      → lookup (codes "Host") headers ≡ some hosts
      → first hosts ≡ some host
      → (p : ClashProxy) × (vmess_clash t i s conn_id address label ≡ some p)
  unfolding vmess_clash
  over_tcp i s tcp header request headers hosts host conn_id address label a b c d e f =
      rw (vmess_clash, a, b, c, d, e, f) (_, refl)

  over_xhttp :
      (i : Inbound) (s : StreamSettings) (r : RealitySettings) (x : XhttpSettings) (conn_id : Uuid)
      (address : ℕ) (label : Text)
      → s.reality_settings ≡ some r
      → s.xhttp_settings ≡ some x
      → (p : ClashProxy) × (vless_clash t i s conn_id address label ≡ some p)
  unfolding vless_clash
  over_xhttp i s r x conn_id address label reality xhttp = elim (Option-cases s.grpc_settings) [
    | inl plain ↦ rw (vless_clash, reality, plain, xhttp) (_, refl)
    | inr (g, grpc) ↦ rw (vless_clash, reality, grpc) (_, refl)
  ]

  link-proxy :
      (i : Inbound) (tag : ProtoTag) (conn_id : Uuid) (conn : Conn) (address : ℕ) (label : Text)
      (link : List Text)
      → IsProxied tag
      → link_of t i conn_id conn address label tag ≡ some link
      → (p : ClashProxy) × ((i.stream_settings >>= λ s.
            clash_of_tag t i tag s conn_id address label)
          ≡ some p)
  unfolding link_of vless_grpc vless_xhttp vmess_link clash_of_tag vmess_clash vless_clash
  link-proxy i vless_grpc_reality conn_id conn address label link k h =
      let (url, made, h0) = bound (vless_grpc t i conn_id address label) _ link h in
      let (s, stream, h1) = bound i.stream_settings _ url made in
      let (r, reality, h2) = bound s.reality_settings _ url h1 in
      let (g, grpc, h3) = bound s.grpc_settings _ url h2 in
      let (p, made') = over_grpc i s r g conn_id address label reality grpc in
      rw (stream, clash_of_tag) (p, made')
  link-proxy i vless_xhttp_reality conn_id conn address label link k h =
      let (url, made, h0) = bound (vless_xhttp t i conn_id address label) _ link h in
      let (s, stream, h1) = bound i.stream_settings _ url made in
      let (r, reality, h2) = bound s.reality_settings _ url h1 in
      let (x, xhttp, h3) = bound s.xhttp_settings _ url h2 in
      let (p, made') = over_xhttp i s r x conn_id address label reality xhttp in
      rw (stream, clash_of_tag) (p, made')
  link-proxy i vmess conn_id conn address label link k h =
      let (url, made, h0) = bound (vmess_link t i conn_id address label) _ link h in
      let (s, stream, h1) = bound i.stream_settings _ url made in
      let (tcp, tcp_settings, h2) = bound s.tcp_settings _ url h1 in
      let (header, headed, h3) = bound tcp.header _ url h2 in
      let (request, requested, h4) = bound header.request _ url h3 in
      let (headers, given, h5) = bound request.headers _ url h4 in
      let (hosts, hosted, h6) = bound (lookup (codes "Host") headers) _ url h5 in
      let (host, firsted, h7) = bound (first hosts) _ url h6 in
      let (p, made') =
        over_tcp i s tcp header request headers hosts host conn_id address label tcp_settings headed
          requested given hosted firsted in
      rw (stream, clash_of_tag) (p, made')
  link-proxy i vless_tcp_reality conn_id conn address label link k h = absurd k
  link-proxy i shadowsocks conn_id conn address label link k h = absurd k
  link-proxy i wireguard conn_id conn address label link k h = absurd k
  link-proxy i hysteria2 conn_id conn address label link k h = absurd k
  link-proxy i mtproto conn_id conn address label link k h = absurd k

  abbrev pub HasProxy : List ClashProxy → Served → Type 0
  HasProxy ps s =
      IsProxied s.inbound.tag
      → (link : List Text) → create_link t s.inbound s.conn_id s.conn s.address s.label ≡ some link
      → (p : ClashProxy) × (proxy t s.inbound s.conn_id s.address s.label ≡ some p) × IsIn p ps

  refused :
      (s : Served)
      → proxy t s.inbound s.conn_id s.address s.label ≡ none
      → IsProxied s.inbound.tag
      → (link : List Text) → create_link t s.inbound s.conn_id s.conn s.address s.label ≡ some link
      → ⊥
  unfolding proxy create_link
  refused s no_proxy k link made =
      let (p, found) =
        link-proxy s.inbound s.inbound.tag s.conn_id s.conn s.address s.label link k made in
      let bad : none ≡ some p = sym no_proxy ∙ found in ground (arith, bad)

  HasProxy-cons :
      (q : ClashProxy) (ps : List ClashProxy) (s : Served) → HasProxy ps s → HasProxy (q ∷ ps) s
  HasProxy-cons q ps s h k link made = let (p, same, there) = h k link made in (p, same, inr there)

  proxies-none :
      (s : Served) (list : List Served)
      → proxy t s.inbound s.conn_id s.address s.label ≡ none
      → proxies t (s ∷ list) ≡ proxies t list
  unfolding proxies
  proxies-none s list h = rw (proxies, h) refl

  proxies-some :
      (s : Served) (list : List Served) (p : ClashProxy)
      → proxy t s.inbound s.conn_id s.address s.label ≡ some p
      → proxies t (s ∷ list) ≡ p ∷ proxies t list
  unfolding proxies
  proxies-some s list p h = rw (proxies, h) refl

  proxies-HasProxy : (list : List Served) → All (HasProxy (proxies t list)) list
  proxies-HasProxy [] = tt
  proxies-HasProxy (s ∷ list) =
      let more = proxies-HasProxy list in
      elim (Option-cases (proxy t s.inbound s.conn_id s.address s.label)) [
        | inl no_proxy ↦
            subst (λ ps. All (HasProxy ps) (s ∷ list)) (sym (proxies-none s list no_proxy))
              ((λ k link made. absurd (refused s no_proxy k link made)), more)
        | inr (q, found) ↦
            subst (λ ps. All (HasProxy ps) (s ∷ list)) (sym (proxies-some s list q found))
              (
                (λ k link made. (q, found, inl refl)),
                All-imp (HasProxy (proxies t list)) (HasProxy (q ∷ proxies t list))
                    (HasProxy-cons q (proxies t list)) list more,
              )
      ]

  formatted_profile :
      (format : FormatReq) (e : Option DateTime) (list : List Served) (c : ClashConfig)
      → formatted t format e list ≡ profile c
      → c ≡ clash_config (proxies t list)
  unfolding formatted
  formatted_profile txt e list c h = absurd (as_text_profile e (links t list) c h)
  formatted_profile base64 e list c h = absurd (as_text_profile e (links t list) c h)
  formatted_profile clash e list c h = ground (arith, h)

  reply_with_profile :
      (format : FormatReq) (e : Option DateTime) (list : List Served) (c : ClashConfig)
      → reply_with t format e list ≡ profile c
      → c ≡ clash_config (proxies t list)
  unfolding reply_with
  reply_with_profile format e [] c h = ground (arith, h)
  reply_with_profile format e (s ∷ list) c h = formatted_profile format e (s ∷ list) c h

  -- A profile for Clash comes only for a stored and active subscription and is made of the proxies
  -- of its inbounds; every inbound over gRPC or XHTTP or of VMess that has a link has a proxy in it.
  pub subscription_link_handler_profile :
      (now : DateTime) (req : SubscriptionInfoRequest) (w : World) (c : ClashConfig)
      → subscription_link_handler t now req w ≡ profile c
      → ((sub : Subscription) × (lookup req.id w.cache.subscriptions ≡ some sub)
          × (is_active now sub ≡ true))
        × (c ≡ clash_config (proxies t (served req w)))
        × All (HasProxy c.proxies) (served req w)
  unfolding subscription_link_handler clash_config
  subscription_link_handler_profile now req w c h = elim (Bool-cases (validate req)) [
    | inr invalid ↦
        let r : bad ≡ profile c = rw (subscription_link_handler, invalid) at h in
        absurd (ground (arith, r))
    | inl valid ↦ elim (Option-cases (lookup req.id w.cache.subscriptions)) [
      | inl unknown ↦
          let r : missing ≡ profile c = rw (subscription_link_handler, valid, unknown) at h in
          absurd (ground (arith, r))
      | inr (sub, known) ↦ elim (Bool-cases (is_active now sub)) [
        | inr inactive ↦
            let r : expired ≡ profile c =
              rw (subscription_link_handler, valid, known, inactive) at h in
            absurd (ground (arith, r))
        | inl active ↦
            let made : c ≡ clash_config (proxies t (served req w)) =
              reply_with_profile req.format sub.expires_at (served req w) c
                (rw (subscription_link_handler, valid, known, active) at h) in
            ((sub, known, active), made, rw made (proxies-HasProxy (served req w)))
      ]
    ]
  ]
