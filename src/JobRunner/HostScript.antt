-- ===== src/JobRunner/HostScript.antt =====
-- The shell script of RunJob for a script on the host.
use k4all_operator.Base.{String, ◌<>◌}

-- The wrapper of a script under /host, which `shell` runs.
abbrev pub host_script_wrapper : String → String → String
host_script_wrapper shell script =
    "#!/bin/bash\n" <> "set -e\n" <> "\n" <> "# Setup for more reliable host command access\n"
    <> "mkdir -p /usr/local/bin /usr/local/host-bin\n" <> "\n" <> "# DEBUGGING\n"
    <> "echo \"======== DEBUG INFO ========\"\n" <> "echo \"Script path: " <> script <> "\"\n"
    <> "echo \"Host path contents:\"\n"
    <> "ls -la /host/usr/local/bin/ | grep helm || echo \"No helm found in ls output\"\n"
    <> "echo \"Host helm exists check: $(test -f /host/usr/local/bin/helm && echo YES || echo NO)\"\n"
    <> "echo \"Host helm executable check: $(test -x /host/usr/local/bin/helm && echo YES || echo NO)\"\n"
    <> "echo \"Host helm access:\"\n"
    <> "cat /host/usr/local/bin/helm 2>/dev/null | head -n 2 || echo \"Cannot read helm file\"\n"
    <> "echo \"======== END DEBUG ========\"\n" <> "\n"
    <> "# DIRECT COPY APPROACH - Simple and direct\n"
    <> "if [ -f \"/host/usr/local/bin/helm\" ]; then\n"
    <> "    echo \"Found helm at /host/usr/local/bin/helm - Copying directly\"\n"
    <> "    cp /host/usr/local/bin/helm /bin/helm\n" <> "    chmod +x /bin/helm\n"
    <> "    echo \"Copied helm to /bin/helm for direct access\"\n" <> "else\n"
    <> "    echo \"ERROR: Cannot find helm at /host/usr/local/bin/helm\"\n" <> "fi\n" <> "\n"
    <> "# Set up host command environment the way it worked before\n"
    <> "cat > /usr/local/bin/host-command << 'EOF'\n" <> "#!/bin/bash\n"
    <> "# Simple host command wrapper\n" <> "cmd=\"$1\"\n" <> "shift\n"
    <> "# Try direct binary for known commands\n"
    <> "if [ \"$cmd\" = \"helm\" ] && [ -x \"/bin/helm\" ]; then\n" <> "    exec /bin/helm \"$@\"\n"
    <> "    exit $?\n" <> "fi\n" <> "# Otherwise try host paths\n"
    <> "for dir in /host/usr/local/bin /host/usr/bin /host/bin; do\n"
    <> "    if [ -x \"$dir/$cmd\" ]; then\n" <> "        exec \"$dir/$cmd\" \"$@\"\n"
    <> "        exit $?\n" <> "    fi\n" <> "done\n"
    <> "# Last resort - just try the container command\n"
    <> "echo \"Command not found on host: $cmd, trying container version\" >&2\n"
    <> "exec \"$cmd\" \"$@\"\n" <> "EOF\n" <> "chmod +x /usr/local/bin/host-command\n" <> "\n"
    <> "# Create a separate helm wrapper for reliability\n"
    <> "cat > /usr/local/bin/helm << 'EOF'\n" <> "#!/bin/bash\n" <> "# Direct helm wrapper\n"
    <> "if [ -x \"/bin/helm\" ]; then\n" <> "    exec /bin/helm \"$@\"\n" <> "    exit $?\n"
    <> "elif [ -x \"/host/usr/local/bin/helm\" ]; then\n"
    <> "    exec /host/usr/local/bin/helm \"$@\"\n" <> "    exit $?\n" <> "else\n"
    <> "    echo \"ERROR: Cannot find helm binary\"\n" <> "    exit 1\n" <> "fi\n" <> "EOF\n"
    <> "chmod +x /usr/local/bin/helm\n" <> "\n" <> "# Copy k4all-utils if needed\n"
    <> "if [ -f \"/host/usr/local/bin/k4all-utils\" ]; then\n"
    <> "    cp /host/usr/local/bin/k4all-utils /usr/local/bin/k4all-utils\n"
    <> "    chmod +x /usr/local/bin/k4all-utils\n" <> "fi\n" <> "\n" <> "# Show final status\n"
    <> "echo \"Final path setup:\"\n" <> "echo \"PATH=$PATH\"\n"
    <> "echo \"Helm location: $(which helm)\"\n"
    <> "echo \"Helm version: $(helm version 2>/dev/null || echo 'Cannot get helm version')\"\n"
    <> "\n" <> "# Execute the script\n" <> "echo \"Running script: " <> script <> "\"\n" <> "exec "
    <> shell <> " " <> script <> "\n"
