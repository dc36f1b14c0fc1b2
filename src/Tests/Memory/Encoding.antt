-- ===== src/Tests/Memory/Encoding.antt =====
-- Codecs of the world in memory: they encode one configuration, and maps of one shape.
use k4all_operator.Base.{
  ℕ, zero, suc, ◌≡◌, refl, ap, String, List, [], ◌∷◌, ◌==◌, ◌&&◌, some, Bool, true, false,
  if◌then◌else◌, arith, eq_iff,
}
use k4all_operator.Base.Effect.{Result, ok, err, other}
use k4all_operator.Config.Types.{Config}
use k4all_operator.World.{Json, Values}

abbrev pub sample : Config
sample = record {
  version = "1.0";
  networking = record {
    cni = record { type = "calico" };
    firewalld = record { enabled = "true" };
    interface = record {
      dev = "eth0";
      ip_config = "dhcp";
      ip_addr = "";
      gateway = "";
      subnet_mask = "";
      dns = "";
      dns_search = "";
    };
  };
  features = record {
    virt = record { enabled = "true"; managed = "false"; version = ""; emulation = "auto" };
    argocd = record { enabled = "false"; managed = "true"; version = "" };
  };
  cluster = record {
    api_end_point_use_host_name = "true";
    custom_api_end_point = "";
    ha = record {
      interface = "eth0";
      type = "none";
      api_control_endpoint = "";
      api_control_endpoint_subnet_size = "";
    };
  };
}

abbrev texts : Config → List String
texts c =
    let n = c.networking in
    let i = c.networking.interface in
    let v = c.features.virt in
    let a = c.features.argocd in
    let h = c.cluster.ha in
    c.version ∷ n.cni.type ∷ n.firewalld.enabled ∷ i.dev ∷ i.ip_config ∷ i.ip_addr ∷ i.gateway
    ∷ i.subnet_mask ∷ i.dns ∷ i.dns_search ∷ v.enabled ∷ v.managed ∷ v.version ∷ v.emulation
    ∷ a.enabled ∷ a.managed ∷ a.version ∷ c.cluster.api_end_point_use_host_name
    ∷ c.cluster.custom_api_end_point ∷ h.interface ∷ h.type ∷ h.api_control_endpoint
    ∷ h.api_control_endpoint_subnet_size ∷ []

-- The k-th text, or "".
abbrev nth : List String → ℕ → String
nth [] k = ""
nth (t ∷ ts) zero = t
nth (t ∷ ts) (suc k) = nth ts k

abbrev of_texts : List String → Config
of_texts l = record {
  version = nth l 0;
  networking = record {
    cni = record { type = nth l 1 };
    firewalld = record { enabled = nth l 2 };
    interface = record {
      dev = nth l 3;
      ip_config = nth l 4;
      ip_addr = nth l 5;
      gateway = nth l 6;
      subnet_mask = nth l 7;
      dns = nth l 8;
      dns_search = nth l 9;
    };
  };
  features = record {
    virt = record {
      enabled = nth l 10;
      managed = nth l 11;
      version = nth l 12;
      emulation = nth l 13;
    };
    argocd = record { enabled = nth l 14; managed = nth l 15; version = nth l 16 };
  };
  cluster = record {
    api_end_point_use_host_name = nth l 17;
    custom_api_end_point = nth l 18;
    ha = record {
      interface = nth l 19;
      type = nth l 20;
      api_control_endpoint = nth l 21;
      api_control_endpoint_subnet_size = nth l 22;
    };
  };
}

abbrev same_texts : List String → List String → Bool
same_texts [] [] = true
same_texts (a ∷ as_) (b ∷ bs) = a == b && same_texts as_ bs
same_texts _ _ = false

same_texts-≡ : (a b : List String) → same_texts a b ≡ true → a ≡ b
same_texts-≡ [] [] h = refl
same_texts-≡ [] (b ∷ bs) h = cc
same_texts-≡ (a ∷ as_) [] h = cc
same_texts-≡ (a ∷ as_) (b ∷ bs) h = ground (arith, h, eq_iff a b, same_texts-≡ as_ bs)

abbrev pub same : Config → Config → Bool
same a b = same_texts (texts a) (texts b)

pub same_lem : (a b : Config) → same a b ≡ true → a ≡ b
same_lem a b h = ap of_texts (same_texts-≡ (texts a) (texts b) h)

abbrev pub sample_text : String
sample_text = "{ version: 1.0, and the networking, features and cluster of the sample }"

abbrev pub encode : Config → Result String
encode c = if same c sample then ok sample_text else err (other "not encoded")

abbrev pub decode : String → Result Config
decode text = if text == sample_text then ok sample else err (other "not decoded")

-- A map with a text under "version" and true under "managed", whose keys are sorted in the text.
abbrev pub encode_values : Values → Result String
encode_values (some (◌∷◌ (k, Json.text t) (◌∷◌ (j, Json.bool true) []))) =
    if k == "version" && j == "managed" then ok (String.◌∷◌ "v" t) else err (other "not encoded")
encode_values _ = err (other "not encoded")

abbrev pub decode_values : String → Result Values
decode_values String.[] = err (other "not decoded")
decode_values (String.◌∷◌ c t) =
    ok (some (("managed", Json.bool true) ∷ ("version", Json.text t) ∷ []))
