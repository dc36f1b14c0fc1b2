-- ===== src/JobRunner/Scripts.antt =====
-- The shell scripts of RunJob, with the texts that are put into them.
use k4all_operator.Base.{String, ◌<>◌}

-- The wrapper of an init script and of the command, joined by spaces.
abbrev pub init_wrapper : String → String → String
init_wrapper init_script command =
    "#!/bin/bash\n" <> "set -e\n" <> "\n" <> "# Save the init script\n"
    <> "cat > /tmp/init.sh << 'EOL'\n" <> init_script <> "\n" <> "EOL\n" <> "\n"
    <> "# Make it executable\n" <> "chmod +x /tmp/init.sh\n" <> "\n" <> "# Run the init script\n"
    <> "echo \"Running init script...\"\n" <> "/tmp/init.sh\n" <> "echo \"Init script finished\"\n"
    <> "\n" <> "# Set up PATH for host commands\n" <> "if [ -d \"/usr/local/host-bin\" ]; then\n"
    <> "    export PATH=\"/usr/local/host-bin:$PATH\"\n"
    <> "    echo \"Added host commands to PATH: $PATH\"\n" <> "fi\n" <> "\n"
    <> "# Running main command\n" <> "echo \"Running main command: " <> command <> "\"\n" <> "exec "
    <> command <> "\n"

-- The wrapper of a command without an init script, joined by spaces.
abbrev pub direct_wrapper : String → String
direct_wrapper command =
    "#!/bin/bash\n" <> "set -e\n" <> "\n" <> "# Set up host command proxying if not already done\n"
    <> "if [ ! -d \"/usr/local/host-bin\" ]; then\n" <> "    mkdir -p /usr/local/host-bin\n"
    <> "    \n" <> "    # Create simple host command proxy if it doesn't exist\n"
    <> "    if [ ! -f \"/usr/local/bin/host-command\" ]; then\n"
    <> "        cat > /usr/local/bin/host-command << 'EOF'\n" <> "#!/bin/bash\n" <> "cmd=\"$1\"\n"
    <> "shift\n" <> "for dir in /host/usr/bin /host/bin /host/usr/sbin /host/sbin; do\n"
    <> "    if [ -x \"$dir/$cmd\" ]; then\n" <> "        exec \"$dir/$cmd\" \"$@\"\n"
    <> "        exit $?\n" <> "    fi\n" <> "done\n" <> "echo \"Command not found: $cmd\" >&2\n"
    <> "exit 127\n" <> "EOF\n" <> "        chmod +x /usr/local/bin/host-command\n" <> "    fi\n"
    <> "    \n" <> "    # Create symlinks for common commands that might be missing\n"
    <> "    for cmd in hostname ip ifconfig netstat ps ss ping traceroute; do\n"
    <> "        if ! command -v $cmd &>/dev/null; then\n"
    <> "            echo \"Creating symlink for host $cmd command\"\n"
    <> "            ln -sf /usr/local/bin/host-command /usr/local/host-bin/$cmd\n" <> "        fi\n"
    <> "    done\n" <> "fi\n" <> "\n" <> "# Add host-bin to PATH\n"
    <> "export PATH=\"/usr/local/host-bin:$PATH\"\n" <> "\n" <> "# Run the command\n" <> "exec "
    <> command <> "\n"
