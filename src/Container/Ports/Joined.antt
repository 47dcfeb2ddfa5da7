-- ===== src/Container/Ports/Joined.antt =====
-- The printed ports against the join of their texts.
use car_integrated_service_m.Prelude.{
  suc, Bytes, codes, length, List, [], ◌∷◌, ◌++◌, append_assoc, append-nil, Bool, true, false, join,
  ltb, map, All, ◌≡◌, ◌≢◌, ◌∙◌, refl, ap, sym, arith,
}
use car_integrated_service_m.Container.Manager.{PortBinding, PortMap}
use car_integrated_service_m.Container.Ports.{
  Port, port_text, binding_text, format_ports_from, format_ports, format_host_ports,
  format_bindings, format_port_bindings,
}

-- What the loops write behind a text that is not empty: each part behind a separator.
abbrev behind : List Bytes → Bytes
behind [] = []
behind (s ∷ ss) = codes ", " ++ (s ++ behind ss)

join-behind : (s : Bytes) (ss : List Bytes) → join (codes ", ") (s ∷ ss) ≡ s ++ behind ss
join-behind s [] = sym (append-nil s)
join-behind s (t ∷ ss) = ap (λ r. s ++ (codes ", " ++ r)) (join-behind t ss)

append-three : (s t u : Bytes) → s ++ codes ", " ++ t ++ u ≡ s ++ (codes ", " ++ (t ++ u))
append-three s t u = append_assoc (s ++ codes ", ") t u ∙ append_assoc s (codes ", ") (t ++ u)

format_ports_from-behind :
    (sb : Bytes) (ports : List Port)
    → format_ports_from false sb ports ≡ sb ++ behind (map port_text ports)
unfolding format_ports_from
format_ports_from-behind sb [] = sym (append-nil sb)
format_ports_from-behind sb (port ∷ ports) =
    format_ports_from-behind (sb ++ codes ", " ++ port_text port) ports
    ∙ append-three sb (port_text port) (behind (map port_text ports))

-- The text of ports is their texts with a comma and a space between each two.
pub format_ports_lem :
    (ports : List Port) → format_ports ports ≡ join (codes ", ") (map port_text ports)
unfolding format_ports
format_ports_lem [] = refl
format_ports_lem (port ∷ ports) =
    format_ports_from-behind (port_text port) ports
    ∙ sym (join-behind (port_text port) (map port_text ports))

behind-append : (ss ts : List Bytes) → behind (ss ++ ts) ≡ behind ss ++ behind ts
behind-append [] ts = refl
behind-append (s ∷ ss) ts =
    ap (λ r. codes ", " ++ (s ++ r)) (behind-append ss ts)
    ∙ ap (λ r. codes ", " ++ r) (sym (append_assoc s (behind ss) (behind ts)))

format_host_ports-behind :
    (container_port sb : Bytes) (host_ports : List PortBinding)
    → format_host_ports container_port false sb host_ports
      ≡ sb ++ behind (map (binding_text container_port) host_ports)
unfolding format_host_ports
format_host_ports-behind container_port sb [] = sym (append-nil sb)
format_host_ports-behind container_port sb (port ∷ ports) =
    format_host_ports-behind container_port (sb ++ codes ", " ++ binding_text container_port port)
      ports
    ∙ append-three sb (binding_text container_port port)
        (behind (map (binding_text container_port) ports))

-- The texts of all bindings, in order.
abbrev pub binding_texts : PortMap → List Bytes
binding_texts [] = []
binding_texts ((container_port, host_ports) ∷ visit) =
    map (binding_text container_port) host_ports ++ binding_texts visit

-- Every container port has a binding.
abbrev pub IsBound : PortMap → Type 0
IsBound = All (λ e. e.1 ≢ [])

format_bindings-behind :
    (sb : Bytes) (visit : PortMap)
    → IsBound visit
    → format_bindings true false sb visit ≡ sb ++ behind (binding_texts visit)
unfolding format_bindings format_host_ports
format_bindings-behind sb [] h = sym (append-nil sb)
format_bindings-behind sb ((container_port, []) ∷ visit) h = absurd (h.0 refl)
format_bindings-behind sb ((container_port, port ∷ ports) ∷ visit) h =
    let text = binding_text container_port port in
    let texts = map (binding_text container_port) ports in
    format_bindings-behind (format_host_ports container_port false (sb ++ codes ", " ++ text) ports)
      visit h.1
    ∙ ap (λ r. r ++ behind (binding_texts visit))
        (format_host_ports-behind container_port (sb ++ codes ", " ++ text) ports)
    ∙ append_assoc (sb ++ codes ", " ++ text) (behind texts) (behind (binding_texts visit))
    ∙ ap (λ r. sb ++ codes ", " ++ text ++ r) (sym (behind-append texts (binding_texts visit)))
    ∙ append-three sb text (behind (texts ++ binding_texts visit))

format_port_bindings_first :
    (several : Bool) (container_port : Bytes) (port : PortBinding) (ports : List PortBinding)
    (visit : PortMap)
    → format_bindings several false
        (format_host_ports container_port false (binding_text container_port port) ports)
        visit
      ≡ format_host_ports container_port false (binding_text container_port port) ports
        ++ behind (binding_texts visit)
    → format_bindings several true [] ((container_port, port ∷ ports) ∷ visit)
      ≡ join (codes ", ") (binding_texts ((container_port, port ∷ ports) ∷ visit))
unfolding format_bindings format_host_ports
format_port_bindings_first several container_port port ports visit e =
    let text = binding_text container_port port in
    let texts = map (binding_text container_port) ports in
    e
    ∙ ap (λ r. r ++ behind (binding_texts visit))
        (format_host_ports-behind container_port text ports)
    ∙ append_assoc text (behind texts) (behind (binding_texts visit))
    ∙ ap (λ r. text ++ r) (sym (behind-append texts (binding_texts visit)))
    ∙ sym (join-behind text (texts ++ binding_texts visit))

-- If every container port has a binding, the text of bindings is their texts with a comma and a
-- space between each two, over all container ports in the order of the visit.
pub format_port_bindings_lem :
    (visit : PortMap)
    → IsBound visit
    → format_port_bindings visit ≡ join (codes ", ") (binding_texts visit)
unfolding format_port_bindings format_bindings
format_port_bindings_lem [] h = refl
format_port_bindings_lem ((container_port, []) ∷ visit) h = absurd (h.0 refl)
format_port_bindings_lem ((container_port, port ∷ ports) ∷ []) h =
    format_port_bindings_first false container_port port ports [] (sym (append-nil _))
format_port_bindings_lem ((container_port, port ∷ ports) ∷ e ∷ visit) h =
    let t : ltb 1 (suc (suc (length visit))) ≡ true = ground arith in
    ap (λ s. format_bindings s true [] ((container_port, port ∷ ports) ∷ e ∷ visit)) t
    ∙ format_port_bindings_first true container_port port ports (e ∷ visit) (
        format_bindings-behind
          (format_host_ports container_port false (binding_text container_port port) ports)
          (e ∷ visit) h.1)
