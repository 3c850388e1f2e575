-- ===== src/Srs/Pins.antt =====
-- crates/outbe-zk-backend/src/barretenberg/srs.rs: the fixed second group and the pinned digests of the first.
use outbe_circuits.Prelude.{ℕ, ◌+◌, ◌^◌, List, [], ◌∷◌}

-- `const G2`
abbrev pub g2 : List ℕ
g2 =
    1 ∷ 24 ∷ 196 ∷ 213 ∷ 184 ∷ 55 ∷ 188 ∷ 194 ∷ 188 ∷ 137 ∷ 181 ∷ 179 ∷ 152 ∷ 181 ∷ 151 ∷ 78 ∷ 159
    ∷ 89 ∷ 68 ∷ 7 ∷ 59 ∷ 50 ∷ 7 ∷ 139 ∷ 126 ∷ 35 ∷ 31 ∷ 236 ∷ 147 ∷ 136 ∷ 131 ∷ 176 ∷ 38 ∷ 14 ∷ 1
    ∷ 178 ∷ 81 ∷ 246 ∷ 241 ∷ 199 ∷ 231 ∷ 255 ∷ 78 ∷ 88 ∷ 7 ∷ 145 ∷ 222 ∷ 232 ∷ 234 ∷ 81 ∷ 216 ∷ 122
    ∷ 53 ∷ 142 ∷ 3 ∷ 139 ∷ 78 ∷ 254 ∷ 48 ∷ 250 ∷ 192 ∷ 147 ∷ 131 ∷ 193 ∷ 34 ∷ 254 ∷ 189 ∷ 163 ∷ 192
    ∷ 192 ∷ 99 ∷ 42 ∷ 86 ∷ 71 ∷ 91 ∷ 66 ∷ 20 ∷ 229 ∷ 97 ∷ 94 ∷ 17 ∷ 230 ∷ 221 ∷ 63 ∷ 150 ∷ 230 ∷ 206
    ∷ 162 ∷ 133 ∷ 74 ∷ 135 ∷ 212 ∷ 218 ∷ 204 ∷ 94 ∷ 85 ∷ 4 ∷ 252 ∷ 99 ∷ 105 ∷ 247 ∷ 17 ∷ 15 ∷ 227
    ∷ 210 ∷ 81 ∷ 86 ∷ 193 ∷ 187 ∷ 154 ∷ 114 ∷ 133 ∷ 156 ∷ 242 ∷ 160 ∷ 70 ∷ 65 ∷ 249 ∷ 155 ∷ 164
    ∷ 238 ∷ 65 ∷ 60 ∷ 128 ∷ 218 ∷ 106 ∷ 95 ∷ 228 ∷ []

abbrev pub digest_14 : List ℕ
digest_14 =
    141 ∷ 83 ∷ 149 ∷ 52 ∷ 80 ∷ 205 ∷ 110 ∷ 144 ∷ 169 ∷ 69 ∷ 131 ∷ 125 ∷ 73 ∷ 130 ∷ 152 ∷ 21 ∷ 19
    ∷ 226 ∷ 244 ∷ 77 ∷ 183 ∷ 178 ∷ 15 ∷ 212 ∷ 119 ∷ 241 ∷ 4 ∷ 176 ∷ 65 ∷ 190 ∷ 48 ∷ 77 ∷ []

abbrev pub digest_16 : List ℕ
digest_16 =
    159 ∷ 217 ∷ 250 ∷ 213 ∷ 76 ∷ 253 ∷ 198 ∷ 30 ∷ 195 ∷ 9 ∷ 232 ∷ 24 ∷ 254 ∷ 123 ∷ 189 ∷ 218 ∷ 209
    ∷ 202 ∷ 125 ∷ 222 ∷ 114 ∷ 204 ∷ 155 ∷ 26 ∷ 253 ∷ 18 ∷ 107 ∷ 116 ∷ 79 ∷ 136 ∷ 112 ∷ 120 ∷ []

abbrev pub digest_20 : List ℕ
digest_20 =
    15 ∷ 35 ∷ 136 ∷ 86 ∷ 229 ∷ 87 ∷ 34 ∷ 241 ∷ 90 ∷ 77 ∷ 100 ∷ 239 ∷ 13 ∷ 225 ∷ 43 ∷ 66 ∷ 96 ∷ 226
    ∷ 24 ∷ 36 ∷ 85 ∷ 144 ∷ 189 ∷ 58 ∷ 108 ∷ 144 ∷ 10 ∷ 238 ∷ 24 ∷ 141 ∷ 232 ∷ 229 ∷ []

-- `const PINNED_G1_SHA256`
abbrev pub pinned_g1_sha256 : List (ℕ × List ℕ)
pinned_g1_sha256 = (2 ^ 14 + 1, digest_14) ∷ (2 ^ 16 + 1, digest_16) ∷ (2 ^ 20 + 1, digest_20) ∷ []
