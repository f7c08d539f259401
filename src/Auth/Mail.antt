-- ===== src/Auth/Mail.antt =====
-- The HTML of the two mails: the template literals of marketing-site/src/routes/api/auth in
-- signup/+server.ts and magic-link/+server.ts, a text for each line.
use temporal_cloud_offering.Prelude.{ℕ, List, [], ◌∷◌, ◌++◌}
use temporal_cloud_offering.Text.{Text, codes}
use temporal_cloud_offering.Json.{Json, to_text, decimal}

-- A template literal, from its lines.
pub join_lines : List Text → Text
join_lines [] = []
join_lines (l ∷ []) = l
join_lines (l ∷ k ∷ lines) = l ++ 10 ∷ join_lines (k ∷ lines)

-- `name` is the value of `name || email.split("@")[0]`.
signup_lines : Json → Text → ℕ → List Text
unfolding to_text decimal
signup_lines name link year =
    (codes "")
    ∷ (codes "<!DOCTYPE html>")
    ∷ (codes "<html>")
    ∷ (codes "<head>")
    ∷ (codes "  <meta charset=\"utf-8\">")
    ∷ (codes "  <meta name=\"viewport\" content=\"width=device-width, initial-scale=1.0\">")
    ∷ (codes "</head>")
    ∷ (codes
        "<body style=\"margin: 0; padding: 0; background-color: #0f0a1f; font-family: -apple-system, BlinkMacSystemFont, 'Segoe UI', Roboto, 'Helvetica Neue', Arial, sans-serif;\">")
    ∷ (codes
        "  <table width=\"100%\" cellpadding=\"0\" cellspacing=\"0\" style=\"background-color: #0f0a1f; padding: 40px 20px;\">")
    ∷ (codes "    <tr>")
    ∷ (codes "      <td align=\"center\">")
    ∷ (codes
        "        <table width=\"100%\" max-width=\"520\" cellpadding=\"0\" cellspacing=\"0\" style=\"max-width: 520px;\">")
    ∷ (codes "          <!-- Logo -->")
    ∷ (codes "          <tr>")
    ∷ (codes "            <td align=\"center\" style=\"padding-bottom: 32px;\">")
    ∷ (codes "              <div style=\"display: inline-flex; align-items: center; gap: 8px;\">")
    ∷ (codes
        "                <div style=\"width: 36px; height: 36px; background: linear-gradient(135deg, #10b981, #06b6d4); border-radius: 8px;\"></div>")
    ∷ (codes
        "                <span style=\"color: #ffffff; font-size: 22px; font-weight: 700; letter-spacing: -0.5px;\">Temporal Cloud</span>")
    ∷ (codes "              </div>")
    ∷ (codes "            </td>")
    ∷ (codes "          </tr>")
    ∷ (codes "          ")
    ∷ (codes "          <!-- Main Card -->")
    ∷ (codes "          <tr>")
    ∷ (codes
        "            <td style=\"background: linear-gradient(180deg, #1a1030 0%, #150d28 100%); border: 1px solid rgba(255,255,255,0.1); border-radius: 16px; padding: 40px;\">")
    ∷ (codes
        "              <h1 style=\"margin: 0 0 16px; color: #ffffff; font-size: 24px; font-weight: 600; text-align: center;\">")
    ∷ (codes "                Welcome to Temporal Cloud!")
    ∷ (codes "              </h1>")
    ∷ (codes
        "              <p style=\"margin: 0 0 8px; color: #a1a1aa; font-size: 15px; line-height: 1.6; text-align: center;\">")
    ∷ (codes "                Hi " ++ to_text name ++ codes ",")
    ∷ (codes "              </p>")
    ∷ (codes
        "              <p style=\"margin: 0 0 32px; color: #a1a1aa; font-size: 15px; line-height: 1.6; text-align: center;\">")
    ∷ (codes
        "                Thanks for signing up! Please verify your email address by clicking the button below.")
    ∷ (codes "              </p>")
    ∷ (codes "              ")
    ∷ (codes "              <!-- CTA Button -->")
    ∷ (codes "              <table width=\"100%\" cellpadding=\"0\" cellspacing=\"0\">")
    ∷ (codes "                <tr>")
    ∷ (codes "                  <td align=\"center\">")
    ∷ (codes "                    <a href=\""
        ++ link
        ++ codes
            "\" style=\"display: inline-block; background: linear-gradient(135deg, #10b981, #06b6d4); color: #000000; font-size: 15px; font-weight: 600; text-decoration: none; padding: 14px 32px; border-radius: 8px; box-shadow: 0 4px 14px rgba(16, 185, 129, 0.3);\">")
    ∷ (codes "                      Verify Email Address →")
    ∷ (codes "                    </a>")
    ∷ (codes "                  </td>")
    ∷ (codes "                </tr>")
    ∷ (codes "              </table>")
    ∷ (codes "              ")
    ∷ (codes "              <!-- Divider -->")
    ∷ (codes
        "              <div style=\"margin: 32px 0; border-top: 1px solid rgba(255,255,255,0.1);\"></div>")
    ∷ (codes "              ")
    ∷ (codes "              <!-- Alternative Link -->")
    ∷ (codes
        "              <p style=\"margin: 0 0 12px; color: #71717a; font-size: 13px; text-align: center;\">")
    ∷ (codes "                Or copy and paste this URL into your browser:")
    ∷ (codes "              </p>")
    ∷ (codes
        "              <p style=\"margin: 0; color: #10b981; font-size: 12px; word-break: break-all; text-align: center; background: rgba(16, 185, 129, 0.1); padding: 12px; border-radius: 6px;\">")
    ∷ (codes "                " ++ link)
    ∷ (codes "              </p>")
    ∷ (codes "              ")
    ∷ (codes
        "              <p style=\"margin: 24px 0 0; color: #52525b; font-size: 13px; text-align: center;\">")
    ∷ (codes "                This link will expire in 24 hours.")
    ∷ (codes "              </p>")
    ∷ (codes "            </td>")
    ∷ (codes "          </tr>")
    ∷ (codes "          ")
    ∷ (codes "          <!-- Footer -->")
    ∷ (codes "          <tr>")
    ∷ (codes "            <td style=\"padding-top: 32px; text-align: center;\">")
    ∷ (codes "              <p style=\"margin: 0 0 8px; color: #52525b; font-size: 13px;\">")
    ∷ (codes "                Didn't create an account? You can safely ignore this email.")
    ∷ (codes "              </p>")
    ∷ (codes "              <p style=\"margin: 0; color: #3f3f46; font-size: 12px;\">")
    ∷ (codes "                © "
        ++ decimal year
        ++ codes " Temporal Technologies Inc. All rights reserved.")
    ∷ (codes "              </p>")
    ∷ (codes "            </td>")
    ∷ (codes "          </tr>")
    ∷ (codes "        </table>")
    ∷ (codes "      </td>")
    ∷ (codes "    </tr>")
    ∷ (codes "  </table>")
    ∷ (codes "</body>")
    ∷ (codes "</html>")
    ∷ (codes "          ")
    ∷ []

unfoldable pub signup_html : Json → Text → ℕ → Text
unfolding signup_lines join_lines
signup_html name link year = join_lines (signup_lines name link year)

magic_link_lines : Text → ℕ → List Text
unfolding decimal
magic_link_lines link year =
    (codes "")
    ∷ (codes "<!DOCTYPE html>")
    ∷ (codes "<html>")
    ∷ (codes "<head>")
    ∷ (codes "  <meta charset=\"utf-8\">")
    ∷ (codes "  <meta name=\"viewport\" content=\"width=device-width, initial-scale=1.0\">")
    ∷ (codes "</head>")
    ∷ (codes
        "<body style=\"margin: 0; padding: 0; background-color: #0f0a1f; font-family: -apple-system, BlinkMacSystemFont, 'Segoe UI', Roboto, 'Helvetica Neue', Arial, sans-serif;\">")
    ∷ (codes
        "  <table width=\"100%\" cellpadding=\"0\" cellspacing=\"0\" style=\"background-color: #0f0a1f; padding: 40px 20px;\">")
    ∷ (codes "    <tr>")
    ∷ (codes "      <td align=\"center\">")
    ∷ (codes
        "        <table width=\"100%\" max-width=\"520\" cellpadding=\"0\" cellspacing=\"0\" style=\"max-width: 520px;\">")
    ∷ (codes "          <!-- Logo -->")
    ∷ (codes "          <tr>")
    ∷ (codes "            <td align=\"center\" style=\"padding-bottom: 32px;\">")
    ∷ (codes "              <div style=\"display: inline-flex; align-items: center; gap: 8px;\">")
    ∷ (codes
        "                <div style=\"width: 36px; height: 36px; background: linear-gradient(135deg, #10b981, #06b6d4); border-radius: 8px;\"></div>")
    ∷ (codes
        "                <span style=\"color: #ffffff; font-size: 22px; font-weight: 700; letter-spacing: -0.5px;\">Temporal Cloud</span>")
    ∷ (codes "              </div>")
    ∷ (codes "            </td>")
    ∷ (codes "          </tr>")
    ∷ (codes "          ")
    ∷ (codes "          <!-- Main Card -->")
    ∷ (codes "          <tr>")
    ∷ (codes
        "            <td style=\"background: linear-gradient(180deg, #1a1030 0%, #150d28 100%); border: 1px solid rgba(255,255,255,0.1); border-radius: 16px; padding: 40px;\">")
    ∷ (codes
        "              <h1 style=\"margin: 0 0 16px; color: #ffffff; font-size: 24px; font-weight: 600; text-align: center;\">")
    ∷ (codes "                Sign in to your account")
    ∷ (codes "              </h1>")
    ∷ (codes
        "              <p style=\"margin: 0 0 32px; color: #a1a1aa; font-size: 15px; line-height: 1.6; text-align: center;\">")
    ∷ (codes
        "                Click the button below to securely sign in to Temporal Cloud. This link will expire in 15 minutes.")
    ∷ (codes "              </p>")
    ∷ (codes "              ")
    ∷ (codes "              <!-- CTA Button -->")
    ∷ (codes "              <table width=\"100%\" cellpadding=\"0\" cellspacing=\"0\">")
    ∷ (codes "                <tr>")
    ∷ (codes "                  <td align=\"center\">")
    ∷ (codes "                    <a href=\""
        ++ link
        ++ codes
            "\" style=\"display: inline-block; background: linear-gradient(135deg, #10b981, #06b6d4); color: #000000; font-size: 15px; font-weight: 600; text-decoration: none; padding: 14px 32px; border-radius: 8px; box-shadow: 0 4px 14px rgba(16, 185, 129, 0.3);\">")
    ∷ (codes "                      Sign in to Temporal Cloud →")
    ∷ (codes "                    </a>")
    ∷ (codes "                  </td>")
    ∷ (codes "                </tr>")
    ∷ (codes "              </table>")
    ∷ (codes "              ")
    ∷ (codes "              <!-- Divider -->")
    ∷ (codes
        "              <div style=\"margin: 32px 0; border-top: 1px solid rgba(255,255,255,0.1);\"></div>")
    ∷ (codes "              ")
    ∷ (codes "              <!-- Alternative Link -->")
    ∷ (codes
        "              <p style=\"margin: 0 0 12px; color: #71717a; font-size: 13px; text-align: center;\">")
    ∷ (codes "                Or copy and paste this URL into your browser:")
    ∷ (codes "              </p>")
    ∷ (codes
        "              <p style=\"margin: 0; color: #10b981; font-size: 12px; word-break: break-all; text-align: center; background: rgba(16, 185, 129, 0.1); padding: 12px; border-radius: 6px;\">")
    ∷ (codes "                " ++ link)
    ∷ (codes "              </p>")
    ∷ (codes "            </td>")
    ∷ (codes "          </tr>")
    ∷ (codes "          ")
    ∷ (codes "          <!-- Footer -->")
    ∷ (codes "          <tr>")
    ∷ (codes "            <td style=\"padding-top: 32px; text-align: center;\">")
    ∷ (codes "              <p style=\"margin: 0 0 8px; color: #52525b; font-size: 13px;\">")
    ∷ (codes "                Didn't request this email? You can safely ignore it.")
    ∷ (codes "              </p>")
    ∷ (codes "              <p style=\"margin: 0; color: #3f3f46; font-size: 12px;\">")
    ∷ (codes "                © "
        ++ decimal year
        ++ codes " Temporal Technologies Inc. All rights reserved.")
    ∷ (codes "              </p>")
    ∷ (codes "            </td>")
    ∷ (codes "          </tr>")
    ∷ (codes "        </table>")
    ∷ (codes "      </td>")
    ∷ (codes "    </tr>")
    ∷ (codes "  </table>")
    ∷ (codes "</body>")
    ∷ (codes "</html>")
    ∷ (codes "          ")
    ∷ []

unfoldable pub magic_link_html : Text → ℕ → Text
unfolding magic_link_lines join_lines
magic_link_html link year = join_lines (magic_link_lines link year)
